-- ===== src/Examples/TrustRuns.antt =====
-- internal/p2p/trust.go on small trackers.
use distributed_multi_agent.Base.{
  List, ◌+◌, ◌-◌, ◌*◌, ◌≤◌, ◌≡◌, ◌≢◌, ◌↔◌, refl, [], ◌∷◌, true, false, arith, bytes, at, get,
}
use distributed_multi_agent.Double.{seconds}
use distributed_multi_agent.Examples.Sample.{alice, bob, trust_code}
use distributed_multi_agent.Trust.Quarantine.{Event, asks, quarantined_iff, rejects, run, step}
use distributed_multi_agent.Trust.Bucket.{IsCapped, billion, rate, slack}
use distributed_multi_agent.Trust.Rate.{Calls, asked, passed, passed_bound}
use distributed_multi_agent.Trust.{
  TrustTracker, is_quarantined, known_peer, new_trust_tracker, quarantine_threshold,
  rate_limit_burst, token,
}

abbrev fresh : TrustTracker
fresh = new_trust_tracker

-- `alice` is rejected three times, while `bob` is served.
abbrev rejected : List Event
rejected =
    rejects alice (bytes "bad_signature")
    ∷ asks bob 5 5
    ∷ rejects alice (bytes "bad_signature")
    ∷ rejects alice []
    ∷ []

abbrev flood : Calls
flood = (alice, 1) ∷ (bob, 2) ∷ (alice, 2) ∷ (alice, 1_000_000_001) ∷ []

-- A nanosecond is the `float64` 0x112E0BE826D695 * 2 ^ -82.
nanosecond : seconds 1 ≡ 4_835_703_278_458_517
unfolding trust_code
nanosecond = refl

flood_passes : passed fresh flood alice ≡ 3
unfolding trust_code passed
flood_passes = refl

alice_named : alice ≢ []
alice_named = ground arith

alice_quarantined : is_quarantined (run fresh rejected) alice ≡ true
unfolding trust_code run step
alice_quarantined = refl

bob_trusted : is_quarantined (run fresh rejected) bob ≡ false
unfolding trust_code run step
bob_trusted = refl

others_known : known_peer alice ≢ known_peer bob
unfolding trust_code
others_known = ground arith

fresh-IsCapped : IsCapped (get fresh.rates alice)
unfolding trust_code
fresh-IsCapped = tt

fresh_zero : at fresh.invalid alice ≡ 0
unfolding trust_code
fresh_zero = refl

fresh_out : is_quarantined fresh alice ≡ false
unfolding trust_code
fresh_out = refl

passed_bound_example :
    passed fresh flood alice * (token * billion)
    ≤ rate_limit_burst * billion
      + (1_000_000_002 - 1) * rate
      + asked flood alice * (slack * billion)
passed_bound_example =
    passed_bound fresh flood alice 1 1_000_000_002 (omega arith)
      (omega arith, (omega arith, (omega arith, (omega arith, omega arith)))) fresh-IsCapped

quarantined_iff_example :
    (is_quarantined (run new_trust_tracker rejected) alice ≡ true)
    ↔ (quarantine_threshold ≤ at (run new_trust_tracker rejected).invalid alice)
quarantined_iff_example = quarantined_iff rejected alice (omega arith) alice_named
