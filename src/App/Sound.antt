-- ===== src/App/Sound.antt =====
-- cmd/main.go: the ledger of a running node stays valid, whatever comes from the network and the browser.
use distributed_multi_agent.App.Repair.{repaired_as, repairing, take_response-eq}
use distributed_multi_agent.App.Sync.{
  handle_control, on_ledger, repair_all, repair_status, take_response,
}
use distributed_multi_agent.App.Taken.{
  accept_message-ledger_after, ledger_after, accept_message-none, ledger-on_ledger, on_ledger-none,
}
use distributed_multi_agent.App.{App, accept_message, broadcast_diagnostics, note_refusal}
use distributed_multi_agent.Base.{
  ℕ, ◌+◌, ◌≡◌, sym, subst, inl, inr, List, [], ◌∷◌, Bool, false, Option, none, some, arith,
  if◌then◌else◌, Bytes, bytes, Bool-cases, Option-cases, leb,
}
use distributed_multi_agent.Chat.Invariant.{IsValid, add_with_reason-IsValid}
use distributed_multi_agent.Chat.Queries.{
  add_repaired, mark_rejected, mark_rejected_reason, set_sync_status,
}
use distributed_multi_agent.Chat.{Ledger, add_with_reason}
use distributed_multi_agent.Types.{Message}
use distributed_multi_agent.Unicode.{Unicode}
use distributed_multi_agent.Validate.{eqb}
use distributed_multi_agent.Wire.{Control}

-- The ledger, if there is one, is valid.
abbrev pub IsSoundLedger : Option Ledger → Type 0
IsSoundLedger none = Unit {0}
IsSoundLedger (some l) = IsValid l

abbrev pub IsSound : App → Type 0
IsSound s = IsSoundLedger s.ledger

pub mark_rejected-IsValid : (l : Ledger) → IsValid l → IsValid (mark_rejected l)
unfolding mark_rejected
mark_rejected-IsValid l v = record {
  positive = v.positive;
  bounded = v.bounded;
  indexed = v.indexed;
  distinct = v.distinct;
}

note_refusal-IsValid : (l : Ledger) (reason : Bytes) → IsValid l → IsValid (note_refusal l reason)
unfolding note_refusal mark_rejected_reason
note_refusal-IsValid l reason v =
    let marked : IsValid (mark_rejected_reason l reason) = record {
      positive = v.positive;
      bounded = v.bounded;
      indexed = v.indexed;
      distinct = v.distinct;
    } in
    ground arith

pub set_sync_status-IsValid :
    (l : Ledger) (status : Bytes) → IsValid l → IsValid (set_sync_status l status)
unfolding set_sync_status
set_sync_status-IsValid l status v = record {
  positive = v.positive;
  bounded = v.bounded;
  indexed = v.indexed;
  distinct = v.distinct;
}

add_repaired-IsValid : (l : Ledger) (n : ℕ) → IsValid l → IsValid (add_repaired l n)
unfolding add_repaired
add_repaired-IsValid l n v = elim (Bool-cases (leb n 0)) [
  | inl e ↦ rw (e, add_repaired) v
  | inr e ↦
      rw (e, add_repaired)
        (record {
          positive = v.positive;
          bounded = v.bounded;
          indexed = v.indexed;
          distinct = v.distinct;
        })
]

pub on_ledger-IsSound :
    (s : App) (f : Ledger → Ledger)
    → ((l : Ledger) → IsValid l → IsValid (f l))
    → IsSound s
    → IsSound (on_ledger s f)
on_ledger-IsSound s f keeps v = elim (Option-cases s.ledger) [
  | inl e ↦ subst IsSound (sym (on_ledger-none s f e)) v
  | inr (l, e) ↦
      subst IsSoundLedger (sym (ledger-on_ledger s l f e)) (keeps l (subst IsSoundLedger e v))
]

module _ (u : Unicode) where
  ledger_after-IsValid : (l : Ledger) (msg : Message) → IsValid l → IsValid (ledger_after u l msg)
  ledger_after-IsValid l msg v =
      let (l', (taken, reason)) = add_with_reason u l (some msg) in
      let kept = add_with_reason-IsValid u l (some msg) v in
      elim (Bool-cases taken) [
        | inl e ↦ rw e kept
        | inr e ↦ rw e (note_refusal-IsValid l' reason kept)
      ]

  pub accept_message-IsSound :
      (s : App) (msg : Option Message) (self trigger_ai : Bool) (now : ℕ)
      → IsSound s
      → IsSound (accept_message u s msg self trigger_ai now).0
  unfolding accept_message
  accept_message-IsSound s none self trigger_ai now v = v
  accept_message-IsSound s (some msg) self trigger_ai now v = elim (Option-cases s.ledger) [
    | inl e ↦ subst IsSoundLedger (sym (accept_message-none u s msg self trigger_ai now e)) v
    | inr (l, e) ↦
        subst IsSoundLedger (sym (accept_message-ledger_after u s l msg self trigger_ai now e).0)
          (ledger_after-IsValid l msg (subst IsSoundLedger e v))
  ]

  repair_all-IsSound :
      (s : App) (now before : ℕ) (msgs : List (Option Message))
      → IsSound s
      → IsSound (repair_all u s now before msgs).0
  unfolding repair_all
  repair_all-IsSound s now before [] v = v
  repair_all-IsSound s now before (msg ∷ msgs) v =
      let (s', (taken, batch)) = accept_message u s msg false false now in
      repair_all-IsSound s' now (if taken then before + 1 else before) msgs
        (accept_message-IsSound s msg false false now v)

  take_response-none :
      (s : App) (now : ℕ) (ctrl : Control) → s.ledger ≡ none → take_response u s now ctrl ≡ s
  unfolding take_response
  take_response-none s now ctrl has = ground arith

  take_response-IsSound :
      (s : App) (now : ℕ) (ctrl : Control) → IsSound s → IsSound (take_response u s now ctrl)
  unfolding broadcast_diagnostics
  take_response-IsSound s now ctrl v = elim (Option-cases s.ledger) [
    | inl e ↦ subst IsSound (sym (take_response-none s now ctrl e)) v
    | inr (l, e) ↦
        let s1 = on_ledger s repairing in
        let n = (repair_all u s1 now 0 ctrl.messages).1 in
        let s2 = (repair_all u s1 now 0 ctrl.messages).0 in
        let started =
          on_ledger-IsSound s repairing (λ l'. set_sync_status-IsValid l' (bytes "repairing")) v in
        subst IsSound (sym (take_response-eq u s l now ctrl e)) (
          on_ledger-IsSound s2 (repaired_as u n)
            (λ l' w.
              set_sync_status-IsValid (add_repaired l' n) (repair_status n)
                (add_repaired-IsValid l' n w))
            (repair_all-IsSound s1 now 0 ctrl.messages started))
  ]

  pub handle_control-IsSound :
      (s : App) (now : ℕ) (ctrl : Control) → IsSound s → IsSound (handle_control u s now ctrl).0
  unfolding handle_control
  handle_control-IsSound s now ctrl v = elim (Bool-cases (eqb ctrl.kind (bytes "sync_request"))) [
    | inl e ↦ rw (e, handle_control) v
    | inr e ↦ elim (Bool-cases (eqb ctrl.kind (bytes "sync_response"))) [
      | inl e' ↦ rw (e, e', handle_control) (take_response-IsSound s now ctrl v)
      | inr e' ↦ rw (e, e', handle_control) v
    ]
  ]
