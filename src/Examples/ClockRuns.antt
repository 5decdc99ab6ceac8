-- ===== src/Examples/ClockRuns.antt =====
-- internal/clock/vector.go on small clocks.
use distributed_multi_agent.Base.{ℕ, ◌+◌, ◌≡◌, ◌<◌, refl, ◌↔◌, [], ◌∷◌, arith, GoMap, at}
use distributed_multi_agent.Clock.Causal.{Means, compare_iff_Means}
use distributed_multi_agent.Clock.{before, after, concurrent, equal, compare, merge, sum, u64}
use distributed_multi_agent.Examples.Sample.{
  clock_code, alice, apart, bob, carol, early, early_clock, reply,
}

early_before_reply : compare early reply ≡ before
unfolding clock_code
early_before_reply = refl

reply-after-early : compare reply early ≡ after
unfolding clock_code
reply-after-early = refl

apart_concurrent : compare early apart ≡ concurrent
unfolding clock_code
apart_concurrent = refl

missing_is_zero : compare ((bob, 0) ∷ []) [] ≡ equal
unfolding clock_code
missing_is_zero = refl

sum_wraps : sum ((alice, 18_446_744_073_709_551_615) ∷ (bob, 3) ∷ []) ≡ 2
unfolding clock_code
sum_wraps = refl

compare_iff_Means_example : (compare early reply ≡ before) ↔ Means before early reply
compare_iff_Means_example = compare_iff_Means early reply before

later : GoMap ℕ
later = (alice, 1) ∷ (carol, 2) ∷ []

reply_before_later : compare reply later ≡ before
unfolding clock_code later
reply_before_later = refl

no_wrap : at early carol + 1 < u64
unfolding clock_code
no_wrap = omega arith

no_wrap_merged : at (merge early_clock apart).clock alice + 1 < u64
unfolding clock_code
no_wrap_merged = omega arith
