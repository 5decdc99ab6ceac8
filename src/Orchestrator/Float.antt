-- ===== src/Orchestrator/Float.antt =====
-- What internal/ai/orchestrator.go does with `float64`: its constants, which are whole numbers of
-- hundredths, three operations, two comparisons and the verb `%.2f`.
use distributed_multi_agent.Base.{ℕ, ◌≤◌, ◌≡◌, Bool, true, false, Bytes}

pub record Float : Type 1 where
  pub carrier : Type 0
  pub hundredths : ℕ → carrier
  pub of_nat : ℕ → carrier
  pub add : carrier → carrier → carrier
  pub mul : carrier → carrier → carrier
  pub div : carrier → carrier → carrier
  pub lt : carrier → carrier → Bool
  pub le : carrier → carrier → Bool
  pub show : carrier → Bytes

-- What IEEE 754 says of these operations: `<=` is transitive; a number up to one, and the sum of two of
-- them, times zero is not above zero; what is not above zero is not above one, and stays so times a
-- fraction; and a whole number of hundredths is not below zero.
pub record IsIeee (f : Float) : Type 0 where
  pub le_trans : (x y z : f.carrier) → f.le x y ≡ true → f.le y z ≡ true → f.le x z ≡ true
  pub zero_le : f.le (f.hundredths 0) (f.hundredths 0) ≡ true
  pub one_lt : (x : f.carrier) → f.le x (f.hundredths 0) ≡ true → f.lt (f.hundredths 100) x ≡ false
  pub mul_zero :
      (m : ℕ) → m ≤ 100 → f.le (f.mul (f.hundredths m) (f.hundredths 0)) (f.hundredths 0) ≡ true
  pub sum-mul_zero :
      (m n : ℕ)
      → m ≤ 100
      → n ≤ 100
      → f.le (f.mul (f.add (f.hundredths m) (f.hundredths n)) (f.hundredths 0)) (f.hundredths 0)
        ≡ true
  pub mul_fraction :
      (x : f.carrier) (n : ℕ)
      → f.le x (f.hundredths 0) ≡ true
      → 1 ≤ n
      → n ≤ 100
      → f.le (f.mul x (f.hundredths n)) (f.hundredths 0) ≡ true
  pub fraction_above :
      (n : ℕ) → n ≤ 100 → f.le (f.hundredths 0) (f.div (f.of_nat n) (f.of_nat 100)) ≡ true
