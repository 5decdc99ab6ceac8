-- ===== src/Orchestrator/Turns.antt =====
-- internal/ai/orchestrator.go: the turns of a persona. `Process` and `ForceReply` let go of the lock
-- while the language model is asked, so that each is a step before, the request, and a step after,
-- between which other calls may come.
pub mod Answered
pub mod Runs
use distributed_multi_agent.Base.{
  ℕ, ◌+◌, List, [], ◌∷◌, ◌++◌, Bool, true, false, not, ◌&&◌, ◌||◌, Option, none, some, leb, ◌==◌,
  if◌then◌else◌, length, Bytes, bytes, last_n,
}
use distributed_multi_agent.Batcher.{ChatMessage}
use distributed_multi_agent.Memory.{Disk, Memory, as_prompt_section}
use distributed_multi_agent.Orchestrator.Float.{Float}
use distributed_multi_agent.Orchestrator.History.{compact_history, trailing_ai}
use distributed_multi_agent.Orchestrator.Ollama.{Ollama, decision_ctx_n, generate}
use distributed_multi_agent.Orchestrator.Recall.{add_facts, extract_memories}
use distributed_multi_agent.Orchestrator.Prompts.{latest_of}
use distributed_multi_agent.Orchestrator.Score.{
  Orchestrator, Persona, rewrite_at_all, should_respond,
}
use distributed_multi_agent.Orchestrator.Words.{
  fallback_reply, is_duplicate, message_mentions_persona, strip_name_prefix,
}
use distributed_multi_agent.Unicode.{Unicode}
use distributed_multi_agent.Validate.{eqb, is_empty}
use mathlib.Core.List.{reverse}

abbrev pub ai_hard_stop_depth : ℕ
ai_hard_stop_depth = 6

-- What a turn keeps while the lock is free: the arguments of `generate`, and what its reply is for.
pub record Turn : Type 0 where
  pub persona : Persona
  pub latest : ChatMessage
  pub recent : List ChatMessage
  pub memory_section : Bytes
  pub num_ctx : ℕ
  pub must_reply : Bool
  pub forced : Bool

-- What a turn comes to: no reply, a reply with the message that `onReply` made of it, or a panic.
pub data Outcome : Type 0 where
  silent : Outcome
  replied : Bytes → ChatMessage → Outcome
  panicked : Outcome

-- The loop of `Process` over the new messages.
unfoldable pub filter_own : Bytes → List ChatMessage → List ChatMessage
filter_own name [] = []
filter_own name (m ∷ ms) =
    let rest = filter_own name ms in if eqb m.sender_name name then rest else m ∷ rest

-- `Process` up to its first return: the messages of others are counted and kept.
unfoldable pub take_in : Unicode → Orchestrator → List ChatMessage → Orchestrator
take_in u o new_messages =
    let filtered = filter_own o.persona.name new_messages in
    record o {
      new_others_msgs = o.new_others_msgs + length filtered;
      history = compact_history u (o.history ++ filtered);
    }

unfoldable pub memory_section_of : Orchestrator → Bytes
memory_section_of o = elim o.memory [ none ↦ [] | some ms ↦ as_prompt_section ms ]

unfoldable pub start_turn : Orchestrator → ChatMessage → Bool → Bool → Turn
start_turn o latest must_reply forced = record {
  persona = o.persona;
  latest = latest;
  recent = last_n decision_ctx_n o.history;
  memory_section = memory_section_of o;
  num_ctx = o.num_ctx;
  must_reply = must_reply;
  forced = forced;
}

-- Whether the message mentions the persona; the fuel of the search is always enough.
unfoldable pub explicit_mention : Unicode → Orchestrator → ChatMessage → Bool
explicit_mention u o latest = elim (message_mentions_persona u latest o.persona.name) [
  | none ↦ false
  | some b ↦ b
]

module _ (u : Unicode) (f : Float) where
  -- The tests of `Process` on the latest message, for the state that has taken it in.
  unfoldable pub decide : Orchestrator → ℕ → ChatMessage → Option Turn
  decide o now latest =
      let explicit = explicit_mention u o latest in
      let depth = trailing_ai u o.history in
      if latest.is_ai && leb ai_hard_stop_depth depth
      then none
      else if not (length latest.mentions == 0) && (not latest.mention_all && not explicit)
      then none
      else if not (should_respond f u o now latest depth explicit).0
      then none
      else if length o.history == 0
      then none
      else some (start_turn o latest (explicit || (latest.mention_all && not latest.is_ai)) false)

  -- `Process` up to the request.
  unfoldable pub process : Orchestrator → ℕ → List ChatMessage → Orchestrator × Option Turn
  process o now new_messages =
      if o.stopped then (o, none) else elim (latest_of (filter_own o.persona.name new_messages)) [
        | none ↦ (take_in u o new_messages, none)
        | some latest ↦ (take_in u o new_messages, decide (take_in u o new_messages) now latest)
      ]

  -- The latest message of somebody else, on the history from the last message on.
  unfoldable pub latest_other : Bytes → List ChatMessage → Option ChatMessage
  latest_other name [] = none
  latest_other name (m ∷ ms) =
      let rest = latest_other name ms in
      if not (u.equal_fold m.sender_name name) then some m else rest

  -- `ForceReply` up to the request.
  unfoldable pub force_reply : Orchestrator → Orchestrator × Option Turn
  force_reply o =
      if o.stopped || length o.history == 0
      then (o, none)
      else (let o' = record o { history = compact_history u o.history } in
          elim (latest_other o'.persona.name (reverse o'.history)) [
            | none ↦ (o', none)
            | some latest ↦ (o', some (start_turn o' latest true true))
          ])

  -- The request: the model that `generate` falls back on is the persona's from then on.
  unfoldable pub ask : Ollama → Turn → Option Bytes × Bytes
  ask l t = generate u l t.persona t.recent t.memory_section t.num_ctx t.must_reply

  unfoldable pub set_model : Orchestrator → Option Bytes → Orchestrator
  set_model o none = o
  set_model o (some m) = record o { persona = record o.persona { model = m } }

  -- The text that goes on to be said: the reply, or what stands in for one that must be made.
  unfoldable pub reply_or_fallback : Turn → Bytes → Bytes
  reply_or_fallback t reply_text =
      if is_empty reply_text && t.must_reply then fallback_reply u t.latest.content else reply_text

  -- The message that goes into the history: what `onReply` returns, unless it is empty.
  unfoldable pub own_message : Bytes → Bytes → ChatMessage → ChatMessage
  own_message name content self_msg =
      if is_empty self_msg.content
      then record {
        id = [];
        sender_id = [];
        sender_name = name;
        content = content;
        is_ai = true;
        mentions = [];
        mention_all = false;
        vector_clock = [];
      }
      else self_msg

  module _ (on_reply : Bytes → Bytes → ChatMessage) where
    -- A turn from the rewriting of `@all` on.
    unfoldable pub publish : Orchestrator → ℕ → Turn → Bytes → Orchestrator × Outcome
    publish o now t reply_text =
        let (o', said) = rewrite_at_all u o now reply_text in
        if is_empty said
        then (o', silent)
        else (let self_msg = own_message t.persona.name said (on_reply t.persona.name said) in
            (
              record o' {
                history = compact_history u (o'.history ++ (self_msg ∷ []));
                last_reply_at = some now;
                new_others_msgs = 0;
              },
              replied said self_msg,
            ))

    -- A turn after the request.
    unfoldable pub finish : Orchestrator → ℕ → Turn → Bytes → Orchestrator × Outcome
    finish o now t reply =
        if is_empty (reply_or_fallback t reply)
        then (o, silent)
        else elim (strip_name_prefix u (reply_or_fallback t reply) t.persona.name) [
          | none ↦ (o, panicked)
          | some reply_text ↦
              if t.forced && is_empty reply_text
              then (o, silent)
              else if o.stopped
              then (o, silent)
              else if not t.must_reply && is_duplicate u f reply_text o.history t.persona.name
              then (o, silent)
              else publish o now t reply_text
        ]

  -- The goroutine that `Process` starts after a reply, at the end of its two seconds.
  unfoldable pub recall :
      Ollama → Disk → (Bytes → Memory) → Orchestrator → Turn → Bytes → Orchestrator
  recall l d made o t reply_text = if o.stopped then o else elim o.memory [
    | none ↦ o
    | some ms ↦ record o {
      memory = some (
          add_facts d ms made (extract_memories u l t.persona.model t.recent reply_text t.num_ctx));
    }
  ]

  -- The calls of `onThinking` around the request.
  unfoldable pub thinking : Orchestrator → Option Turn → List Bool
  thinking o none = []
  thinking o (some t) = if o.on_thinking then true ∷ false ∷ [] else []
