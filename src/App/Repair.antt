-- ===== src/App/Repair.antt =====
-- cmd/main.go: what a sync response does to the counters of a ledger, and what a node answers.
use distributed_multi_agent.App.Taken.{accept_message-ledger_after, ledger_after, ledger-on_ledger}
use distributed_multi_agent.App.Sync.{on_ledger, repair_all, repair_status, take_response}
use distributed_multi_agent.App.{App, accept_message, broadcast_diagnostics, note_refusal}
use distributed_multi_agent.Base.{
  ℕ, ◌+◌, ◌%◌, ◌≡◌, ◌≢◌, refl, sym, ap, ◌∙◌, List, [], ◌∷◌, Bool, false, Option, none, some, arith,
  if◌then◌else◌, Bytes, bytes,
}
use distributed_multi_agent.Chat.Queries.{add_repaired, mark_rejected_reason, set_sync_status}
use distributed_multi_agent.Chat.{Ledger, accept, add_with_reason, evict, incr, record_message}
use distributed_multi_agent.Clock.{u64}
use distributed_multi_agent.Types.{Message}
use distributed_multi_agent.Unicode.{Unicode}
use distributed_multi_agent.Wire.{Control}

-- A message taken or not, as a number.
abbrev pub taken_count : Bool → ℕ
taken_count taken = if taken then 1 else 0

sum_mod :
    (x y z t n : ℕ)
    → x % u64 ≡ (y + n) % u64
    → y % u64 ≡ (z + t) % u64
    → x % u64 ≡ (z + (t + n)) % u64
sum_mod x y z t n p q = omega arith

repaired-add_repaired :
    (l : Ledger) (n : ℕ) → (add_repaired l n).repaired % u64 ≡ (l.repaired + n) % u64
unfolding add_repaired
repaired-add_repaired l n = ground arith

verified-add_repaired : (l : Ledger) (n : ℕ) → (add_repaired l n).verified ≡ l.verified
unfolding add_repaired
verified-add_repaired l n = ground arith

repair_status-some : (n : ℕ) → repair_status n ≢ []
unfolding repair_status
repair_status-some n = ground arith

status_kept :
    (l : Ledger) (n : ℕ) → (set_sync_status l (repair_status n)).sync_status ≡ repair_status n
unfolding set_sync_status
status_kept l n = ground (arith, repair_status-some n)

-- The ledger that `take_response` starts with, and the one that it makes of the repaired one.
abbrev pub repairing : Ledger → Ledger
repairing l = set_sync_status l (bytes "repairing")

module _ (u : Unicode) where
  accept-counts :
      (l : Ledger) (msg : Message)
      → ((accept u l msg).repaired ≡ l.repaired) × ((accept u l msg).verified ≡ incr l.verified)
  unfolding accept record_message evict
  accept-counts l msg = ground arith

  add_with_reason-counts :
      (l : Ledger) (msg : Message)
      → ((add_with_reason u l (some msg)).0.repaired ≡ l.repaired)
        × ((add_with_reason u l (some msg)).0.verified % u64
            ≡ (l.verified + taken_count (add_with_reason u l (some msg)).1.0) % u64)
  unfolding add_with_reason incr
  add_with_reason-counts l msg = ground (arith, accept-counts l msg)

  -- The ledger of `s'` counts the repaired messages of `l`, and `n` more verified ones.
  abbrev Counts : Ledger → App → ℕ → Type 0
  Counts l s' n =
      (l' : Ledger) × (s'.ledger ≡ some l')
      × (l'.repaired ≡ l.repaired)
      × (l'.verified % u64 ≡ (l.verified + n) % u64)

  counters-note_refusal :
      (l : Ledger) (reason : Bytes)
      → ((note_refusal l reason).repaired ≡ l.repaired)
        × ((note_refusal l reason).verified ≡ l.verified)
  unfolding note_refusal mark_rejected_reason
  counters-note_refusal l reason = ground arith

  ledger_after-counts :
      (l : Ledger) (msg : Message)
      → ((ledger_after u l msg).repaired ≡ l.repaired)
        × ((ledger_after u l msg).verified % u64
            ≡ (l.verified + taken_count (add_with_reason u l (some msg)).1.0) % u64)
  ledger_after-counts l msg =
      let (l', (taken, reason)) = add_with_reason u l (some msg) in
      ground (arith, add_with_reason-counts l msg, counters-note_refusal l' reason)

  accept_message-Counts :
      (s : App) (l : Ledger) (msg : Option Message) (now : ℕ)
      → s.ledger ≡ some l
      → Counts l
          (accept_message u s msg false false now).0
          (taken_count (accept_message u s msg false false now).1.0)
  unfolding accept_message
  accept_message-Counts s l none now has = (l, has, refl, ground arith)
  accept_message-Counts s l (some msg) now has =
      let (led, same) = accept_message-ledger_after u s l msg false false now has in
      let (repaired, verified) = ledger_after-counts l msg in
      (
        ledger_after u l msg,
        led,
        repaired,
        verified ∙ ap (λ t. (l.verified + taken_count t) % u64) (sym same),
      )

  repair_all-Counts :
      (s : App) (l : Ledger) (now before : ℕ) (msgs : List (Option Message))
      → s.ledger ≡ some l
      → (n : ℕ) × ((repair_all u s now before msgs).1 ≡ before + n)
        × Counts l (repair_all u s now before msgs).0 n
  unfolding repair_all
  repair_all-Counts s l now before [] has = (0, ground arith, (l, has, refl, ground arith))
  repair_all-Counts s l now before (msg ∷ msgs) has =
      let (s', (taken, batch)) = accept_message u s msg false false now in
      let (l1, led1, same1, more1) = accept_message-Counts s l msg now has in
      let (n, total, (l2, led2, same2, more2)) =
        repair_all-Counts s' l1 now (if taken then before + 1 else before) msgs led1 in
      (
        taken_count taken + n,
        ground arith,
        (
          l2,
          led2,
          same2 ∙ same1,
          sum_mod l2.verified l1.verified l.verified (taken_count taken) n more2 more1,
        ),
      )

  -- The end of a repair of `n` messages.
  abbrev pub repaired_as : ℕ → Ledger → Ledger
  repaired_as n l = set_sync_status (add_repaired l n) (repair_status n)

  pub take_response-eq :
      (s : App) (l : Ledger) (now : ℕ) (ctrl : Control)
      → s.ledger ≡ some l
      → take_response u s now ctrl
        ≡ broadcast_diagnostics (
            on_ledger
              (repair_all u (on_ledger s repairing) now 0 ctrl.messages).0
              (repaired_as (repair_all u (on_ledger s repairing) now 0 ctrl.messages).1))
  unfolding take_response
  take_response-eq s l now ctrl has =
      let end = broadcast_diagnostics (
        on_ledger (repair_all u (on_ledger s repairing) now 0 ctrl.messages).0
          (repaired_as (repair_all u (on_ledger s repairing) now 0 ctrl.messages).1)) in
      ap (λ (o : Option Ledger). elim o [ none ↦ s | some l' ↦ end ]) has

  -- A sync response, whatever it holds, adds the same number to the count of verified and to that of
  -- repaired messages, up to the wrap of these counters at 64 bits, and the status of the ledger tells
  -- that number, or is `idle` where it is 0.
  pub take_response_counts :
      (s : App) (l : Ledger) (now : ℕ) (ctrl : Control)
      → s.ledger ≡ some l
      → (n : ℕ) × (l' : Ledger) × ((take_response u s now ctrl).ledger ≡ some l')
        × (l'.verified % u64 ≡ (l.verified + n) % u64)
        × (l'.repaired % u64 ≡ (l.repaired + n) % u64)
        × (l'.sync_status ≡ repair_status n)
  unfolding broadcast_diagnostics set_sync_status
  take_response_counts s l now ctrl has =
      let s1 = on_ledger s repairing in
      let n = (repair_all u s1 now 0 ctrl.messages).1 in
      let (m, total, (l2, led, same, more)) =
        repair_all-Counts s1 (repairing l) now 0 ctrl.messages
          (ledger-on_ledger s l repairing has) in
      let count : m ≡ n = omega (arith, total) in
      (
        n,
        repaired_as n l2,
        ap (λ t. t.ledger) (take_response-eq s l now ctrl has)
            ∙ ledger-on_ledger (repair_all u s1 now 0 ctrl.messages).0 l2 (repaired_as n) led,
        ap (λ v. v % u64) (verified-add_repaired l2 n)
            ∙ more
            ∙ ap (λ k. (l.verified + k) % u64) count,
        repaired-add_repaired l2 n ∙ ap (λ r. (r + n) % u64) same,
        status_kept (add_repaired l2 n) n,
      )
