-- ===== src/App/Live.antt =====
-- cmd/main.go: a node over time, with every event that touches its ledger.
use distributed_multi_agent.App.Session.{reset_room}
use distributed_multi_agent.App.Sync.{
  handle_control, note_reject, on_ledger, request_sync, request_timeout,
}
use distributed_multi_agent.App.{
  App, accept_message, add_own, compose, has_some, broadcast_diagnostics, sign_and_publish,
}
use distributed_multi_agent.Base.{
  ℕ, ◌≡◌, sym, subst, ◌⊎◌, inl, inr, List, [], ◌∷◌, Bool, not, ◌&&◌, Option, none, some, arith,
  Bytes, bytes, Bool-cases, Option-cases,
}
use distributed_multi_agent.Chat.Invariant.{IsValid, add_with_reason-IsValid}
use distributed_multi_agent.Chat.Queries.{mark_rejected, set_sync_status}
use distributed_multi_agent.Chat.{Ledger, add}
use distributed_multi_agent.Clock.{increment}
use distributed_multi_agent.Crypto.{Libp2p}
use distributed_multi_agent.Types.{Codec, Message}
use distributed_multi_agent.Unicode.{Unicode}
use distributed_multi_agent.Validate.{eqb}
use distributed_multi_agent.Wire.{Control}
use distributed_multi_agent.App.Sound.{
  IsSound, IsSoundLedger, accept_message-IsSound, handle_control-IsSound, mark_rejected-IsValid,
  on_ledger-IsSound, set_sync_status-IsValid,
}

-- What a node does with its ledger: a message of the room, a control packet, a reject, a request and its
-- timeout, an own message, and the reset.
pub data Event : Type 0 where
  received : Option Message → Bool → Bool → ℕ → Event
  control : ℕ → Control → Event
  rejected : Event
  requested : Bytes → Event
  timed_out : Event
  said : (Message → Bool) → Bytes → Bytes → Bytes → Bool → List Bytes → Bool → Event
  reset : Event

-- A step that may set the status of the ledger, or count a reject.
IsSound-of_cases :
    (s s' : App) (f : Ledger → Ledger)
    → ((l : Ledger) → IsValid l → IsValid (f l))
    → (s'.ledger ≡ s.ledger) ⊎ (s'.ledger ≡ (on_ledger s f).ledger)
    → IsSound s
    → IsSound s'
IsSound-of_cases s s' f keeps (inl e) v = subst IsSoundLedger (sym e) v
IsSound-of_cases s s' f keeps (inr e) v =
    subst IsSoundLedger (sym e) (on_ledger-IsSound s f keeps v)

note_reject_cases :
    (s : App)
    → ((note_reject s).ledger ≡ s.ledger)
      ⊎ ((note_reject s).ledger ≡ (on_ledger s mark_rejected).ledger)
unfolding note_reject broadcast_diagnostics
note_reject_cases s = elim (Option-cases s.ledger) [
  | inl e ↦ inl (ground arith)
  | inr (l, e) ↦ inr (ground arith)
]

-- `SetSyncStatus`, with the status last.
abbrev with_status : Bytes → Ledger → Ledger
with_status status l = set_sync_status l status

request_sync_cases :
    (s : App) (id : Bytes)
    → ((request_sync s id).0.ledger ≡ s.ledger)
      ⊎ ((request_sync s id).0.ledger ≡ (on_ledger s (with_status (bytes "requesting"))).ledger)
unfolding request_sync broadcast_diagnostics
request_sync_cases s id = elim (Option-cases s.ledger) [
  | inl e ↦ inl (ground arith)
  | inr (l, e) ↦ elim (Bool-cases (not (s.ready && has_some s.room))) [
    | inl off ↦ inl (ground arith)
    | inr on ↦ inr (ground arith)
  ]
]

request_timeout_cases :
    (s : App)
    → ((request_timeout s).ledger ≡ s.ledger)
      ⊎ ((request_timeout s).ledger ≡ (on_ledger s (with_status (bytes "idle"))).ledger)
unfolding request_timeout broadcast_diagnostics
request_timeout_cases s = elim (Option-cases s.ledger) [
  | inl e ↦ inl (ground arith)
  | inr (l, e) ↦ elim (Bool-cases (eqb l.sync_status (bytes "requesting"))) [
    | inl waits ↦ inr (ground arith)
    | inr done ↦ inl (ground arith)
  ]
]

module _ (u : Unicode) where
  module _ (p : Libp2p) (c : Codec) where
    add_own-IsSound :
        (o : Option Ledger) (msg : Message) → IsSoundLedger o → IsSoundLedger (add_own u p c o msg)
    unfolding add_own add
    add_own-IsSound none msg v = tt
    add_own-IsSound (some l) msg v = add_with_reason-IsValid u l (some msg) v

    ledger-sign_and_publish :
        (s : App) (publish : Message → Bool) (id sender_name content : Bytes) (is_ai : Bool)
        (mentions : List Bytes) (mention_all : Bool)
        → ((sign_and_publish u p c s publish id sender_name content is_ai mentions
              mention_all).0.ledger
            ≡ s.ledger)
          ⊎ ((msg : Message) × ((sign_and_publish u p c s publish id sender_name content is_ai
                  mentions mention_all).0.ledger
                ≡ add_own u p c s.ledger msg))
    unfolding sign_and_publish broadcast_diagnostics
    ledger-sign_and_publish s publish id sender_name content is_ai mentions mention_all =
        elim (Option-cases s.identity) [
          | inl e ↦ inl (ground arith)
          | inr (identity, e) ↦ elim (Option-cases s.vc) [
            | inl e' ↦ inl (ground arith)
            | inr (vc, e') ↦
                let msg =
                  compose u p c s identity (increment vc s.peer_id) id sender_name content is_ai
                    mentions mention_all in
                elim (Bool-cases (not (s.ready && has_some s.room))) [
                  | inl off ↦ inl (ground arith)
                  | inr on ↦ elim (Bool-cases (publish msg)) [
                    | inl sent ↦ inr (msg, ground arith)
                    | inr lost ↦ inl (ground arith)
                  ]
                ]
          ]
        ]

    sign_and_publish-IsSound :
        (s : App) (publish : Message → Bool) (id sender_name content : Bytes) (is_ai : Bool)
        (mentions : List Bytes) (mention_all : Bool)
        → IsSound s
        → IsSound
            (sign_and_publish u p c s publish id sender_name content is_ai mentions mention_all).0
    sign_and_publish-IsSound s publish id sender_name content is_ai mentions mention_all v =
        elim (ledger-sign_and_publish s publish id sender_name content is_ai mentions mention_all) [
          | inl same ↦ subst IsSoundLedger (sym same) v
          | inr (msg, added) ↦ subst IsSoundLedger (sym added) (add_own-IsSound s.ledger msg v)
        ]

    -- One event, as the code handles it.
    unfoldable pub happen : App → Event → App
    happen s (received msg self trigger_ai now) = (accept_message u s msg self trigger_ai now).0
    happen s (control now ctrl) = (handle_control u s now ctrl).0
    happen s rejected = note_reject s
    happen s (requested id) = (request_sync s id).0
    happen s timed_out = request_timeout s
    happen s (said publish id name content is_ai mentions mention_all) =
        (sign_and_publish u p c s publish id name content is_ai mentions mention_all).0
    happen s reset = (reset_room s).0

    unfoldable pub live : App → List Event → App
    live s [] = s
    live s (e ∷ es) = live (happen s e) es

    happen-IsSound : (s : App) (e : Event) → IsSound s → IsSound (happen s e)
    unfolding happen reset_room
    happen-IsSound s (received msg self trigger_ai now) v =
        accept_message-IsSound u s msg self trigger_ai now v
    happen-IsSound s (control now ctrl) v = handle_control-IsSound u s now ctrl v
    happen-IsSound s rejected v =
        IsSound-of_cases s (note_reject s) mark_rejected mark_rejected-IsValid (note_reject_cases s)
          v
    happen-IsSound s (requested id) v =
        IsSound-of_cases s (request_sync s id).0 (with_status (bytes "requesting"))
          (λ l w. set_sync_status-IsValid l (bytes "requesting") w) (request_sync_cases s id) v
    happen-IsSound s timed_out v =
        IsSound-of_cases s (request_timeout s) (with_status (bytes "idle"))
          (λ l w. set_sync_status-IsValid l (bytes "idle") w) (request_timeout_cases s) v
    happen-IsSound s (said publish id name content is_ai mentions mention_all) v =
        sign_and_publish-IsSound s publish id name content is_ai mentions mention_all v
    happen-IsSound s reset v = tt

    -- The ledger of a node stays valid through any sequence of messages, sync packets, rejects, requests,
    -- own messages and resets: its messages have different IDs, its set holds exactly those IDs, and it
    -- stays within its size.
    pub live-IsSound : (s : App) (es : List Event) → IsSound s → IsSound (live s es)
    unfolding live
    live-IsSound s [] v = v
    live-IsSound s (e ∷ es) v = live-IsSound (happen s e) es (happen-IsSound s e v)
