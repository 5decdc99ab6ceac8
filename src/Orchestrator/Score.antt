-- ===== src/Orchestrator/Score.antt =====
-- internal/ai/orchestrator.go: the state of a persona, and whether it answers a message.
pub mod Chain
use distributed_multi_agent.Base.{
  ℕ, zero, suc, ◌+◌, ◌-◌, ◌*◌, ◌/◌, ◌%◌, ◌^◌, ◌≡◌, refl, ◌⊎◌, inl, inr, List, [], ◌∷◌, ◌++◌, Bool,
  true, false, not, ◌&&◌, ◌||◌, Option, none, some, ltb, leb, ◌==◌, if◌then◌else◌, length, Bytes,
  bytes, contains, replace_all,
}
use distributed_multi_agent.Batcher.{ChatMessage}
use distributed_multi_agent.Memory.{MemoryStore}
use distributed_multi_agent.Orchestrator.Float.{Float}
use distributed_multi_agent.Orchestrator.History.{compact_history}
use distributed_multi_agent.Orchestrator.Words.{is_open_group_prompt, looks_like_question}
use distributed_multi_agent.Unicode.{Unicode}
use distributed_multi_agent.Validate.{is_empty}

pub record Persona : Type 0 where
  pub name : Bytes
  pub style : Bytes
  pub model : Bytes

-- Times are in nanoseconds, and the zero time is `none`. `onThinking` is whether there is a callback;
-- the context is cancelled exactly where `stopped` is set; `onStream` is never called.
pub record Orchestrator : Type 0 where
  pub persona : Persona
  pub history : List ChatMessage
  pub memory : Option MemoryStore
  pub num_ctx : ℕ
  pub on_thinking : Bool
  pub stopped : Bool
  pub last_reply_at : Option ℕ
  pub new_others_msgs : ℕ
  pub last_at_all_at : Option ℕ

abbrev pub ai_cooldown : ℕ
ai_cooldown = 8 * 10 ^ 9

abbrev pub ai_at_all_cooldown : ℕ
ai_at_all_cooldown = 600 * 10 ^ 9

abbrev pub surprise_reply_percent : ℕ
surprise_reply_percent = 6

-- A context size of 0 stands for every number that is not positive.
unfoldable pub new_orchestrator : Persona → Option MemoryStore → ℕ → Orchestrator
new_orchestrator persona memory num_ctx = record {
  persona = persona;
  history = [];
  memory = memory;
  num_ctx = if num_ctx == 0 then 4096 else num_ctx;
  on_thinking = false;
  stopped = false;
  last_reply_at = none;
  new_others_msgs = 0;
  last_at_all_at = none;
}

unfoldable pub stop : Orchestrator → Orchestrator
stop o = record o { stopped = true }

unfoldable pub set_thinking_callback : Orchestrator → Bool → Orchestrator
set_thinking_callback o fn = record o { on_thinking = fn }

unfoldable pub set_persona : Orchestrator → Persona → Orchestrator
set_persona o p = record o {
  persona = record {
    name = if is_empty p.name then o.persona.name else p.name;
    style = if is_empty p.style then o.persona.style else p.style;
    model = if is_empty p.model then o.persona.model else p.model;
  };
}

unfoldable pub get_persona : Orchestrator → Persona
get_persona o = o.persona

-- The exclusive or of the lowest `w` bits of two numbers.
unfoldable pub xor_bits : ℕ → ℕ → ℕ → ℕ
xor_bits zero a b = 0
xor_bits (suc w) a b =
    let rest = xor_bits w (a / 2) (b / 2) in (if a % 2 == b % 2 then 0 else 1) + 2 * rest

-- `hash/fnv`: FNV-1a in 32 bits.
unfoldable pub fnv32a : ℕ → Bytes → ℕ
fnv32a hash [] = hash
fnv32a hash (c ∷ cs) = fnv32a (xor_bits 32 hash c * 16_777_619 % 2 ^ 32) cs

unfoldable pub deterministic_percent : Bytes → ℕ
deterministic_percent key = fnv32a 2_166_136_261 key % 100

unfoldable pub should_surprise_reply : ChatMessage → Bytes → Bool
should_surprise_reply msg persona_name =
    if msg.mention_all || not (length msg.mentions == 0)
    then false
    else ltb (deterministic_percent (msg.id ++ (bytes "|surprise|" ++ persona_name)))
        surprise_reply_percent

-- The loops of `ReplaceAll` in `rewriteAtAllLocked`.
unfoldable pub without_at_all : Bytes → Bytes
without_at_all reply =
    replace_all
      (replace_all (replace_all reply (bytes "@all") (bytes "everyone")) (bytes "@All")
        (bytes "everyone"))
      (bytes "@ALL") (bytes "everyone")

-- Whether `t` is a time less than `span` before `now`.
unfoldable pub within : Option ℕ → ℕ → ℕ → Bool
within none now span = false
within (some t) now span = ltb (now - t) span

module _ (u : Unicode) where
  unfoldable pub add_to_history : Orchestrator → ChatMessage → Orchestrator
  add_to_history o msg = record o { history = compact_history u (o.history ++ (msg ∷ [])) }

  unfoldable pub rewrite_at_all : Orchestrator → ℕ → Bytes → Orchestrator × Bytes
  rewrite_at_all o now reply =
      if not (contains (u.to_lower reply) (bytes "@all"))
      then (o, u.trim_space reply)
      else if within o.last_at_all_at now ai_at_all_cooldown
      then (o, u.trim_space (without_at_all reply))
      else (record o { last_at_all_at = some now }, u.trim_space reply)

module _ (f : Float) where
  unfoldable pub chain_decay : ℕ → f.carrier
  chain_decay depth =
      if depth == 0
      then f.hundredths 100
      else if depth == 1
      then f.hundredths 92
      else if depth == 2
      then f.hundredths 75
      else if depth == 3
      then f.hundredths 50
      else if depth == 4
      then f.hundredths 28
      else if depth == 5
      then f.hundredths 12
      else f.hundredths 0

  unfoldable pub deterministic_fraction : Bytes → f.carrier
  deterministic_fraction key = f.div (f.of_nat (deterministic_percent key)) (f.of_nat 100)

  unfoldable pub clamp01 : f.carrier → f.carrier
  clamp01 v =
      if f.lt v (f.hundredths 0)
      then f.hundredths 0
      else if f.lt (f.hundredths 100) v
      then f.hundredths 100
      else v

  unfoldable pub should_win_mention_all : ChatMessage → Bytes → f.carrier → Bool
  should_win_mention_all msg persona_name score =
      let cap_score = if msg.is_ai then f.mul score (f.hundredths 55) else score in
      f.lt (deterministic_fraction (msg.id ++ (bytes "|all|" ++ persona_name)))
        (if f.lt (f.hundredths 72) cap_score then f.hundredths 72 else cap_score)

  module _ (u : Unicode) where
    -- The `switch` of `shouldRespondLocked`: an answer at once, or the number of hundredths of the
    -- first score, with the reason.
    unfoldable pub trigger : Orchestrator → ChatMessage → Bool → (Bool × Bytes) ⊎ (ℕ × Bytes)
    trigger o latest explicit_mention =
        if explicit_mention && not latest.is_ai
        then inl (true, bytes "human_mention_direct")
        else if explicit_mention && latest.is_ai
        then inr (78, bytes "ai_mention")
        else if latest.mention_all && not latest.is_ai
        then inl (true, bytes "human_mention_all_direct")
        else if latest.mention_all && latest.is_ai
        then inr (28, bytes "ai_mention_all")
        else if not latest.is_ai && is_open_group_prompt u latest.content
        then inr (30, bytes "group_prompt")
        else if not latest.is_ai && should_surprise_reply latest o.persona.name
        then inr (12, bytes "surprise_reply")
        else if latest.is_ai && looks_like_question u latest.content
        then inr (32, bytes "ai_followup_question")
        else inl (false, bytes "not_invited")

    -- `score` after the test of `isQuestion`.
    unfoldable pub asked_score : ChatMessage → ℕ → f.carrier
    asked_score latest base =
        if looks_like_question u latest.content
        then f.add (f.hundredths base) (f.hundredths (if latest.is_ai then 15 else 20))
        else f.hundredths base

    -- `score` after the test of `lastReplyAt`.
    unfoldable pub cooled_score : Orchestrator → ℕ → f.carrier → f.carrier
    cooled_score o now score =
        if within o.last_reply_at now (ai_cooldown / 3)
        then f.mul score (f.hundredths 35)
        else if within o.last_reply_at now ai_cooldown
        then f.mul score (f.hundredths 65)
        else score

    unfoldable pub reply_score : Orchestrator → ℕ → ChatMessage → ℕ → ℕ → f.carrier
    reply_score o now latest consecutive_ai base =
        cooled_score o now (f.mul (asked_score latest base) (chain_decay consecutive_ai))

    unfoldable pub reply_reason : Orchestrator → ℕ → ChatMessage → Bytes → Bytes
    reply_reason o now latest reason =
        reason
        ++ ((if looks_like_question u latest.content then bytes "_question" else [])
            ++ (if within o.last_reply_at now (ai_cooldown / 3)
                then bytes "_hot"
                else if within o.last_reply_at now ai_cooldown
                then bytes "_cooling"
                else []))

    unfoldable pub should_respond : Orchestrator → ℕ → ChatMessage → ℕ → Bool → Bool × Bytes
    should_respond o now latest consecutive_ai explicit_mention =
        elim (trigger o latest explicit_mention) [
          | inl answer ↦ answer
          | inr (base, reason) ↦
              let score = reply_score o now latest consecutive_ai base in
              let roll =
                deterministic_fraction (latest.id ++ (bytes "|reply|" ++ o.persona.name)) in
              if latest.mention_all && not (should_win_mention_all latest o.persona.name score)
              then (false, bytes "yielded_mention_all")
              else (
                not (f.le (clamp01 score) roll),
                reply_reason o now latest reason
                    ++ (bytes "_score_"
                        ++ (f.show (clamp01 score) ++ (bytes "_roll_" ++ f.show roll))),
              )
        ]

fnv32a-test : fnv32a 2_166_136_261 (bytes "foobar") ≡ 0xbf9c_f968
unfolding fnv32a xor_bits
fnv32a-test = refl
