-- ===== src/Double.antt =====
-- The `float64` arithmetic of internal/p2p/trust.go, as IEEE 754 and the language specify it, and
-- `Duration.Seconds` of Go's package `time`. A number is a whole multiple of 2 ^ -82: no number that the
-- token buckets reach has a bit below that, the smallest being a nanosecond, 53 bits from 2 ^ -30 on.
pub mod Bounds
use distributed_multi_agent.Base.{ℕ, zero, suc, ◌+◌, ◌*◌, ◌/◌, ◌%◌, ◌^◌, ltb, if◌then◌else◌}

abbrev pub one : ℕ
one = 2 ^ 82

-- The distance of the numbers around `x`, which is at least `p`: they have 53 bits. A hundred doublings
-- are enough for any number below 2 ^ 153.
unfoldable pub ulp : ℕ → ℕ → ℕ → ℕ
ulp zero x p = p
ulp (suc n) x p = let wider = ulp n x (2 * p) in if ltb x (2 ^ 53 * p) then p else wider

-- The whole number next to `q + r / m`, the even one of two that are as near.
unfoldable pub nearest : ℕ → ℕ → ℕ → ℕ
nearest q r m = if ltb (2 * r) m then q else if ltb m (2 * r) then q + 1 else q + q % 2

-- The number next to a fraction, for numbers at the distance `p`.
unfoldable pub round_at : ℕ → ℕ → ℕ → ℕ
round_at p num den = nearest (num / (den * p)) (num % (den * p)) (den * p) * p

-- What a sum or a quotient is rounded to.
unfoldable pub round : ℕ → ℕ → ℕ
round num den = round_at (ulp 100 (num / den) 1) num den

-- `float64(sec) + float64(nsec) / 1e9`.
unfoldable pub seconds : ℕ → ℕ
seconds d = round (d / 1_000_000_000 * one + round (d % 1_000_000_000 * one) 1_000_000_000) 1
