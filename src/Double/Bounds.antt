-- ===== src/Double/Bounds.antt =====
-- How far the rounding of `float64` goes up.
use distributed_multi_agent.Base.{
  ℕ, zero, suc, ◌+◌, ◌*◌, ◌/◌, ◌%◌, ◌^◌, ◌<◌, ◌≤◌, ◌≡◌, ◌⊎◌, refl, sym, ap, ◌∙◌, inl, inr, ltb,
  arith, Bool-cases, ◌==◌,
}
use native.Mathlib.Nat.{div-add-mod', mul_assoc, mul_comm}
use distributed_multi_agent.Double.{nearest, one, round, round_at, seconds, ulp}

ulp_cases : (n x p : ℕ) → (ulp n x p ≡ p) ⊎ (2 ^ 52 * ulp n x p ≤ x)
unfolding ulp
ulp_cases zero x p = inl refl
ulp_cases (suc n) x p = elim (Bool-cases (ltb x (2 ^ 53 * p))) [
  | inl e ↦ inl (ground arith)
  | inr e ↦ elim (ulp_cases n x (2 * p)) [
    | inl same ↦ inr (ground arith)
    | inr small ↦ inr (ground arith)
  ]
]

-- One, doubled `n` times.
abbrev doubled : ℕ → ℕ
doubled zero = 1
doubled (suc n) = 2 * doubled n

-- Doublings enough give a distance at which the number has 53 bits.
ulp_enough : (n x p : ℕ) → x < 2 ^ 53 * (p * doubled n) → x < 2 ^ 53 * ulp n x p
unfolding ulp
ulp_enough zero x p small = omega (arith, small)
ulp_enough (suc n) x p small = elim (Bool-cases (ltb x (2 ^ 53 * p))) [
  | inl fits ↦ ground arith
  | inr wide ↦
      let same : p * (2 * doubled n) ≡ 2 * p * doubled n =
        sym (mul_assoc p 2 (doubled n)) ∙ ap (λ k. k * doubled n) (mul_comm p 2) in
      ground (arith, ulp_enough n x (2 * p) (omega (arith, small, same)))
]

-- The hundred doublings of `round` are enough for a number below 2 ^ 153.
ulp_fits : (x : ℕ) → x < 2 ^ 153 → x < 2 ^ 53 * ulp 100 x 1
ulp_fits x small = ulp_enough 100 x 1 (omega (arith, small))

nearest_cases : (q r m : ℕ) → (nearest q r m ≡ q) ⊎ ((nearest q r m ≡ q + 1) × (m ≤ 2 * r))
unfolding nearest
nearest_cases q r m = elim (Bool-cases (ltb (2 * r) m)) [
  | inl e ↦ inl (ground arith)
  | inr e ↦ elim (Bool-cases (ltb m (2 * r))) [
    | inl e' ↦ inr (ground arith, ground arith)
    | inr e' ↦ elim (Bool-cases (q % 2 == 0)) [
      | inl even ↦ inl (ground arith)
      | inr odd ↦ inr (ground arith, ground arith)
    ]
  ]
]

nearest-le : (q r m : ℕ) → 2 * (nearest q r m * m) ≤ 2 * (q * m + r) + m
nearest-le q r m = elim (nearest_cases q r m) [
  | inl e ↦ rw e (omega arith)
  | inr (e, half) ↦ rw e (grind arith)
]

round_at-le : (p num den : ℕ) → 2 * (round_at p num den * den) ≤ 2 * num + den * p
unfolding round_at
round_at-le p num den =
    let m = den * p in
    let n = nearest (num / m) (num % m) m in
    let regroup : n * p * den ≡ n * m = mul_assoc n p den ∙ ap (λ k. n * k) (mul_comm p den) in
    let parts : num / m * m + num % m ≡ num = div-add-mod' num m in
    rw regroup (omega (arith, nearest-le (num / m) (num % m) m, parts))

round_at-exact : (num : ℕ) → round_at 1 num 1 ≡ num
unfolding round_at nearest
round_at-exact num = ground arith

-- A sum is rounded up by no more than its 2 ^ -53th part.
pub round-le : (x : ℕ) → 2 ^ 53 * round x 1 ≤ (2 ^ 53 + 1) * x
unfolding round
round-le x =
    let p = ulp 100 (x / 1) 1 in
    let up : 2 * (round_at p x 1 * 1) ≤ 2 * x + 1 * p = round_at-le p x 1 in
    elim (ulp_cases 100 (x / 1) 1) [
      | inl e ↦ rw (e, round_at-exact x) (omega arith)
      | inr small ↦ omega (arith, up, small)
    ]

quotient_fine :
    (n : ℕ)
    → 2 ^ 53 * (round_at 1 (n * one) 1_000_000_000 * 1_000_000_000) ≤ (2 ^ 53 + 1) * (n * one)
unfolding round_at nearest
quotient_fine zero = ground arith
quotient_fine (suc n) = omega (arith, round_at-le 1 (suc n * one) 1_000_000_000)

-- And so is the quotient by a billion.
pub quotient-le :
    (n : ℕ) → 2 ^ 53 * (round (n * one) 1_000_000_000 * 1_000_000_000) ≤ (2 ^ 53 + 1) * (n * one)
unfolding round
quotient-le n =
    let p = ulp 100 (n * one / 1_000_000_000) 1 in
    let up : 2 * (round_at p (n * one) 1_000_000_000 * 1_000_000_000)
        ≤ 2 * (n * one) + 1_000_000_000 * p =
      round_at-le p (n * one) 1_000_000_000 in
    elim (ulp_cases 100 (n * one / 1_000_000_000) 1) [
      | inl e ↦ rw e (quotient_fine n)
      | inr small ↦ omega (arith, up, small)
    ]

-- The seconds of a duration are rounded twice.
pub seconds-le :
    (d : ℕ) → 2 ^ 106 * (seconds d * 1_000_000_000) ≤ (2 ^ 53 + 1) * ((2 ^ 53 + 1) * (d * one))
unfolding seconds
seconds-le d =
    let sec = d / 1_000_000_000 in
    let frac = round (d % 1_000_000_000 * one) 1_000_000_000 in
    let whole : sec * 1_000_000_000 + d % 1_000_000_000 ≡ d = div-add-mod' d 1_000_000_000 in
    omega (arith, quotient-le (d % 1_000_000_000), round-le (sec * one + frac), whole)
