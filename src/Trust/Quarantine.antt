-- ===== src/Trust/Quarantine.antt =====
-- Quarantine in internal/p2p/trust.go: when a peer gets there, and that it stays.
use distributed_multi_agent.Base.{
  ℕ, ◌+◌, ◌^◌, ◌≤◌, ◌<◌, ◌≡◌, ◌≢◌, refl, ◌↔◌, ◌⊎◌, inl, inr, ap, length, get, GoMap, StringSet,
  List, [], ◌∷◌, true, false, ite, arith, ltb, if◌then◌else◌, Bytes, bytes, Bytes-discrete, at, has,
  at-put, has-include, Bool-cases,
}
use distributed_multi_agent.Chat.{incr}
use distributed_multi_agent.Trust.{
  PeerRate, TrustTracker, is_quarantined, token, allow_rate, count_invalid, known_peer,
  new_trust_tracker, over_threshold, quarantine_threshold, record_reject, spend,
}

-- What a caller can do to the tracker.
pub data Event : Type 0 where
  rejects : Bytes → Bytes → Event
  asks : Bytes → ℕ → ℕ → Event

unfoldable pub step : TrustTracker → Event → TrustTracker
step t (rejects pid reason) = record_reject t pid reason
step t (asks pid now clock) = (allow_rate t pid now clock).0

unfoldable pub run : TrustTracker → List Event → TrustTracker
run t [] = t
run t (e ∷ es) = run (step t e) es

-- A peer is quarantined exactly if its count of invalid packets has reached the threshold.
abbrev pub IsCounted : TrustTracker → Type 0
IsCounted t =
    (pid : Bytes) → (has t.quarantine pid ≡ true) ↔ (quarantine_threshold ≤ at t.invalid pid)

new-IsCounted : IsCounted new_trust_tracker
unfolding new_trust_tracker has at get
new-IsCounted pid = (λ h. cc, λ h. absurd (omega arith))

-- One event counts a packet against a peer, or leaves counts and quarantine alone.
abbrev Counts : TrustTracker → TrustTracker → Type 0
Counts t t' =
    ((pid : Bytes) × (reason : Bytes) × (t'.invalid ≡ (count_invalid t pid reason).invalid)
      × (t'.quarantine ≡ (count_invalid t pid reason).quarantine))
    ⊎ ((t'.invalid ≡ t.invalid) × (t'.quarantine ≡ t.quarantine))

count_invalid-IsCounted :
    (t : TrustTracker) (pid reason : Bytes)
    → IsCounted t
    → at t.invalid pid + 1 < 2 ^ 63
    → IsCounted (count_invalid t pid reason)
unfolding count_invalid over_threshold incr
count_invalid-IsCounted t pid reason c small j = ground (
  arith,
  c j,
  c pid,
  at-put t.invalid pid j (incr (at t.invalid pid)),
  has-include t.quarantine pid j,
)

-- No peer's count exceeds `n`.
abbrev Within : ℕ → TrustTracker → Type 0
Within n t = (pid : Bytes) → at t.invalid pid ≤ n

new-Within : Within 0 new_trust_tracker
unfolding new_trust_tracker at get
new-Within pid = omega arith

count_invalid-Within :
    (t : TrustTracker) (n : ℕ) (pid reason : Bytes)
    → Within n t
    → n + 1 < 2 ^ 63
    → Within (n + 1) (count_invalid t pid reason)
unfolding count_invalid incr
count_invalid-Within t n pid reason w small j =
    ground (arith, w j, w pid, at-put t.invalid pid j (incr (at t.invalid pid)))

spend-Counts : (t : TrustTracker) (pid : Bytes) (state : PeerRate) → Counts t (spend t pid state).0
unfolding spend
spend-Counts t pid state = elim (Bool-cases (ltb state.tokens token)) [
  | inl e ↦ rw e (inl (pid, bytes "rate_limited", refl, refl))
  | inr e ↦ rw e (inr (refl, refl))
]

step-Counts : (t : TrustTracker) (e : Event) → Counts t (step t e)
unfolding step record_reject allow_rate
step-Counts t (rejects pid reason) =
    inl (known_peer pid, ite (Bytes-discrete reason []) (bytes "invalid") reason, refl, refl)
step-Counts t (asks pid now clock) = spend-Counts t (known_peer pid) _

step-IsCounted :
    (t : TrustTracker) (e : Event) (n : ℕ)
    → IsCounted t
    → Within n t
    → n + 1 < 2 ^ 63
    → IsCounted (step t e) × Within (n + 1) (step t e)
step-IsCounted t e n c w small = elim (step-Counts t e) [
  | inl (pid, reason, i, q) ↦ (
    λ j.
        let m = count_invalid-IsCounted t pid reason c (omega (arith, w pid)) j in
        ground (arith, m, ap (λ (x : GoMap ℕ). at x j) i, ap (λ (x : StringSet). has x j) q),
    λ j.
        omega
          (arith, count_invalid-Within t n pid reason w small j, ap (λ (x : GoMap ℕ). at x j) i),
  )
  | inr (i, q) ↦ (
    λ j. ground (arith, c j, ap (λ (x : GoMap ℕ). at x j) i, ap (λ (x : StringSet). has x j) q),
    λ j. omega (arith, w j, ap (λ (x : GoMap ℕ). at x j) i),
  )
]

run-IsCounted :
    (t : TrustTracker) (es : List Event) (n : ℕ)
    → IsCounted t
    → Within n t
    → n + length es < 2 ^ 63
    → IsCounted (run t es)
unfolding run
run-IsCounted t [] n c w small = c
run-IsCounted t (e ∷ es) n c w small =
    let (c', w') = step-IsCounted t e n c w (omega arith) in
    run-IsCounted (step t e) es (n + 1) c' w' (omega arith)

-- From a new tracker, after any fewer than 2^63 rejects and rate checks, a peer is quarantined
-- exactly if at least three packets have been counted against it.
pub quarantined_iff :
    (es : List Event) (pid : Bytes)
    → length es < 2 ^ 63
    → pid ≢ []
    → (is_quarantined (run new_trust_tracker es) pid ≡ true)
      ↔ (quarantine_threshold ≤ at (run new_trust_tracker es).invalid pid)
unfolding is_quarantined
quarantined_iff es pid small named =
    let c = run-IsCounted new_trust_tracker es 0 new-IsCounted new-Within (omega arith) pid in
    ground (arith, c)

step_keeps_quarantine :
    (t : TrustTracker) (e : Event) (pid : Bytes)
    → has t.quarantine pid ≡ true
    → has (step t e).quarantine pid ≡ true
unfolding count_invalid
step_keeps_quarantine t e pid h = elim (step-Counts t e) [
  | inl (p, reason, i, q) ↦
      ground (arith, ap (λ (x : StringSet). has x pid) q, has-include t.quarantine p pid)
  | inr (i, q) ↦ ground (arith, ap (λ (x : StringSet). has x pid) q)
]

-- A quarantined peer stays quarantined, whatever is rejected or asked for later.
pub run_keeps_quarantine :
    (t : TrustTracker) (es : List Event) (pid : Bytes)
    → is_quarantined t pid ≡ true
    → is_quarantined (run t es) pid ≡ true
unfolding run is_quarantined
run_keeps_quarantine t [] pid h = h
run_keeps_quarantine t (e ∷ es) pid h =
    run_keeps_quarantine (step t e) es pid (ground (arith, step_keeps_quarantine t e pid))

record_reject_reads :
    (t : TrustTracker) (pid reason : Bytes)
    → pid ≢ []
    → (at (record_reject t pid reason).invalid pid ≡ incr (at t.invalid pid))
      × (has (record_reject t pid reason).quarantine pid
          ≡ (if over_threshold (incr (at t.invalid pid)) then true else has t.quarantine pid))
unfolding record_reject known_peer count_invalid
record_reject_reads t pid reason named =
    ground
      (arith, at-put t.invalid pid pid (incr (at t.invalid pid)), has-include t.quarantine pid pid)

-- Three rejects of a peer against which nothing has been counted put it in quarantine, and no two
-- do.
pub third_reject_quarantines :
    (t : TrustTracker) (pid r1 r2 r3 : Bytes)
    → pid ≢ []
    → at t.invalid pid ≡ 0
    → is_quarantined t pid ≡ false
    → (is_quarantined (record_reject (record_reject t pid r1) pid r2) pid ≡ false)
      × (is_quarantined (record_reject (record_reject (record_reject t pid r1) pid r2) pid r3) pid
          ≡ true)
unfolding is_quarantined incr over_threshold
third_reject_quarantines t pid r1 r2 r3 named zero out =
    let t1 = record_reject t pid r1 in
    let t2 = record_reject t1 pid r2 in
    ground (
      arith,
      record_reject_reads t pid r1 named,
      record_reject_reads t1 pid r2 named,
      record_reject_reads t2 pid r3 named,
    )
