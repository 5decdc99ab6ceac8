-- ===== src/Base/Text.antt =====
-- Go strings as lists of bytes: literals, equality and `strings.Compare`.
use Prim.Native.Char.{code}
use Prim.Native.Nat.{ℕ, compare, Ordering}
use Prim.Native.String.{String}
use mathlib.Core.List.{List, [], ◌∷◌}
use mathlib.Core.Logic.{ite}
use mathlib.Core.Path.{◌≡◌, refl}
use native.Mathlib.Decide.{ℕ_discrete}
use native.Mathlib.Omega.{arith}

abbrev pub Bytes : Type 0
Bytes = List ℕ

-- The bytes of an ASCII literal.
abbrev pub bytes : String → Bytes
bytes String.[] = []
bytes (String.◌∷◌ c s) = code c ∷ bytes s

unfoldable pub Bytes-discrete : Discrete Bytes
Bytes-discrete = hlevel ℕ_discrete

-- The sign of a Go comparison: -1, 0 and 1.
pub data Sign : Type 0 where
  less same greater : Sign

unfoldable pub flip : Sign → Sign
flip less = greater
flip same = same
flip greater = less

-- `strings.Compare`: bytewise, and a proper prefix comes first.
unfoldable pub compare_bytes : Bytes → Bytes → Sign
compare_bytes [] [] = same
compare_bytes [] (y ∷ ys) = less
compare_bytes (x ∷ xs) [] = greater
compare_bytes (x ∷ xs) (y ∷ ys) = elim (compare x y) [
  | Ordering.lt ↦ less
  | Ordering.gt ↦ greater
  | Ordering.eq ↦ compare_bytes xs ys
]

pub compare_bytes-flip : (a b : Bytes) → compare_bytes b a ≡ flip (compare_bytes a b)
unfolding compare_bytes flip
compare_bytes-flip [] [] = refl
compare_bytes-flip [] (y ∷ ys) = refl
compare_bytes-flip (x ∷ xs) [] = refl
compare_bytes-flip (x ∷ xs) (y ∷ ys) = ground (arith, compare_bytes-flip xs ys)

pub compare_bytes-same : (a b : Bytes) → compare_bytes a b ≡ same → a ≡ b
unfolding compare_bytes
compare_bytes-same [] [] h = refl
compare_bytes-same [] (y ∷ ys) h = cc
compare_bytes-same (x ∷ xs) [] h = cc
compare_bytes-same (x ∷ xs) (y ∷ ys) h = ground (arith, compare_bytes-same xs ys)

pub compare_bytes_self : (a : Bytes) → compare_bytes a a ≡ same
unfolding compare_bytes
compare_bytes_self [] = refl
compare_bytes_self (x ∷ xs) = ground (arith, compare_bytes_self xs)

compare_bytes-test : compare_bytes (bytes "bob") (bytes "bobby") ≡ less
unfolding compare_bytes
compare_bytes-test = refl

discrete-test : ite (Bytes-discrete (bytes "a") (bytes "b")) same less ≡ less
unfolding Bytes-discrete ℕ_discrete
discrete-test = refl
