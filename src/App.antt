-- ===== src/App.antt =====
-- cmd/main.go: how the application takes a message from the network and how it sends its own, over the
-- ledger, the vector clock, the batcher and the persona. Each function is one step here; in the program
-- the ledger, the clock and the batcher each have a lock of their own, and other goroutines may use them
-- between the parts of one call.
pub mod Causality
pub mod Sync
pub mod Session
pub mod Taken
pub mod Repair
pub mod Sound
pub mod Live
pub mod Shown
pub mod Demo
pub mod Attacks
use distributed_multi_agent.Base.{
  ℕ, List, [], ◌∷◌, ◌++◌, Bool, true, false, not, ◌&&◌, Option, none, some, ite, if◌then◌else◌,
  Bytes, bytes, Bytes-discrete, GoMap, Result, ok, err,
}
use distributed_multi_agent.Batcher.{Batcher, ChatMessage}
use distributed_multi_agent.Batcher
use distributed_multi_agent.Browser.{
  WsEnvelope, diagnostics, envelope_from_message, refused_trace, taken_trace, trace_envelopes,
}
use distributed_multi_agent.Chat.Queries.{mark_rejected_reason}
use distributed_multi_agent.Chat.{Ledger, add_with_reason, duplicate_message}
use distributed_multi_agent.Chat
use distributed_multi_agent.Clock.{VectorClock, copy, increment, merge, snapshot}
use distributed_multi_agent.Crypto.{Identity, Libp2p, sign}
use distributed_multi_agent.Orchestrator.Score.{Orchestrator, add_to_history}
use distributed_multi_agent.Room.{Room}
use distributed_multi_agent.Types.{Codec, Message, hash, new_message, signable_bytes}
use distributed_multi_agent.Unicode.{Unicode}

-- The fields of `appState`; `none` is a nil pointer, and `browser` is what the hub has broadcast. The
-- contexts are left out (cancelling the room's context ends the goroutines that read its channels), and
-- `memStore` is the store that `orch` holds.
pub record App : Type 0 where
  pub ready : Bool
  pub browser : List WsEnvelope
  pub identity : Option Identity
  pub peer_id : Bytes
  pub user_name : Bytes
  pub ai_name : Bytes
  pub has_node : Bool
  pub room : Option Room
  pub vc : Option VectorClock
  pub prev_hash : Bytes
  pub batcher : Option Batcher
  pub orch : Option Orchestrator
  pub ledger : Option Ledger

-- `broadcastDiagnostics`.
unfoldable pub broadcast_diagnostics : App → App
broadcast_diagnostics s = record s { browser = s.browser ++ diagnostics s.ledger s.vc s.room }

-- `aiMessageFromTypes`.
unfoldable pub ai_message_from_types : Message → ChatMessage
ai_message_from_types msg = record {
  id = msg.id;
  sender_id = msg.sender_id;
  sender_name = msg.sender_name;
  content = msg.content;
  is_ai = msg.is_ai;
  mentions = msg.mentions;
  mention_all = msg.mention_all;
  vector_clock = copy msg.vector_clock;
}

-- `x != nil`.
unfoldable pub has_some : {A : Type 0} → Option A → Bool
has_some none = false
has_some (some x) = true

-- `value, _ := …` of a text: the empty one where there is an error.
unfoldable pub or_empty : Result Bytes → Bytes
or_empty (ok text) = text
or_empty (err e) = []

-- The reject that `acceptMessage` notes for a refusal.
unfoldable pub note_refusal : Ledger → Bytes → Ledger
note_refusal l reason =
    ite (Bytes-discrete reason duplicate_message) l (mark_rejected_reason l reason)

-- `if vc != nil { vc.Merge(msg.VectorClock) }`.
unfoldable pub merge_clock : Option VectorClock → Message → Option VectorClock
merge_clock none msg = none
merge_clock (some vc) msg = some (merge vc msg.vector_clock)

module _ (u : Unicode) where
  -- `else if orch != nil { orch.AddToHistory(cm) }`.
  unfoldable pub remember_message : App → ChatMessage → App
  remember_message s cm = elim s.orch [
    | none ↦ s
    | some o ↦ record s { orch = some (add_to_history u o cm) }
  ]

  -- The end of `acceptMessage`: to the batcher, or else to the history. It gives the batch, if the
  -- batcher takes one.
  unfoldable pub route : App → ChatMessage → Bool → ℕ → App × Option (List ChatMessage)
  route s cm trigger_ai now = elim s.batcher [
    | none ↦ (remember_message s cm, none)
    | some b ↦
        if trigger_ai
        then (let (b', batch) = Batcher.add b now cm in (record s { batcher = some b' }, batch))
        else (remember_message s cm, none)
  ]

  -- The state in which `acceptMessage` has noted that the ledger refuses a message.
  unfoldable pub refuse : App → Ledger → Message → Bytes → App
  refuse s l msg reason = broadcast_diagnostics (record s {
    ledger = some (note_refusal l reason);
    browser = s.browser ++ trace_envelopes (refused_trace u msg reason);
  })

  -- The state in which `acceptMessage` has merged and shown a message that the ledger has taken.
  unfoldable pub show : App → Ledger → Message → Bool → App
  show s l msg self = record s {
    ledger = some l;
    vc = merge_clock s.vc msg;
    browser = s.browser ++ (envelope_from_message msg self ∷ trace_envelopes (taken_trace msg));
  }

  -- `acceptMessage` at the time `now`, with what it returns and a batch for the AI.
  unfoldable pub accept_message :
      App → Option Message → Bool → Bool → ℕ → App × (Bool × Option (List ChatMessage))
  accept_message s none self trigger_ai now = (s, (false, none))
  accept_message s (some msg) self trigger_ai now = elim s.ledger [
    | none ↦ (s, (false, none))
    | some l ↦
        let (l', (taken, reason)) = add_with_reason u l (some msg) in
        if not taken
        then (refuse s l' msg reason, (false, none))
        else (let (s', batch) =
              route (show s l' msg self) (ai_message_from_types msg) trigger_ai now in
            (broadcast_diagnostics s', (true, batch)))
  ]

  module _ (p : Libp2p) (c : Codec) where
    -- The message that `signAndPublish` makes under `sendMu`, with the clock already increased.
    unfoldable pub compose :
        App → Identity → VectorClock → Bytes → Bytes → Bytes → Bool → List Bytes → Bool → Message
    compose s identity vc id sender_name content is_ai mentions mention_all =
        let msg =
          new_message id s.peer_id sender_name content mentions mention_all (snapshot vc)
            s.prev_hash is_ai in
        record msg { signature = or_empty (sign p identity (or_empty (signable_bytes c msg))) }

    -- `if ledger != nil { ledger.Add(msg) }`.
    unfoldable pub add_own : Option Ledger → Message → Option Ledger
    add_own none msg = none
    add_own (some l) msg = some (Chat.add u l (some msg)).0

    -- `signAndPublish`; `id` is the fresh UUID, and `publish` whether `room.Publish` succeeds.
    unfoldable pub sign_and_publish :
        App
        → (Message → Bool)
        → Bytes
        → Bytes
        → Bytes
        → Bool
        → List Bytes
        → Bool
        → App × Option Message
    sign_and_publish s publish id sender_name content is_ai mentions mention_all = elim s.identity [
      | none ↦ (s, none)
      | some identity ↦ elim s.vc [
        | none ↦ (s, none)
        | some vc ↦
            if not (s.ready && has_some s.room)
            then (s, none)
            else (let vc' = increment vc s.peer_id in
                let msg =
                  compose s identity vc' id sender_name content is_ai mentions mention_all in
                let s' = record s { vc = some vc'; prev_hash = or_empty (hash c msg) } in
                if publish msg
                then (
                  broadcast_diagnostics (record s' {
                    ledger = add_own s.ledger msg;
                    browser = s.browser ++ (envelope_from_message msg (not is_ai) ∷ []);
                  }),
                  some msg,
                )
                else (s', none))
      ]
    ]
