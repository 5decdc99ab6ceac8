-- ===== src/Base/Sort.antt =====
-- `sort.SliceStable`: the insertion sort that it runs on a block of up to twenty elements. On an
-- order without cycles every stable sort returns the same list.
use Prim.Native.Nat.{◌+◌}
use distributed_multi_agent.Base.Lists.{length, length-reverse}
use distributed_multi_agent.Base.Tests.{if◌then◌else◌, Bool-cases}
use mathlib.Core.Bool.{Bool}
use mathlib.Core.List.Perm
use mathlib.Core.List.{List, [], ◌∷◌, ◌++◌, Perm, reverse, append-nil, perm_middle, reverse_perm}
use mathlib.Core.Logic.{inl, inr}
use mathlib.Core.Path.{◌≡◌, refl}
use native.Mathlib.Omega.{arith}

module _ {A : Type 0} (before : A → A → Bool) where
  -- `for j := i; less(j, j-1); j-- { swap }`, on the sorted part in reverse order.
  unfoldable pub insert_back : A → List A → List A
  insert_back x [] = x ∷ []
  insert_back x (y ∷ ys) = if before x y then y ∷ insert_back x ys else x ∷ y ∷ ys

  unfoldable pub sort_loop : List A → List A → List A
  sort_loop sorted [] = sorted
  sort_loop sorted (x ∷ xs) = sort_loop (insert_back x sorted) xs

  unfoldable pub sort_stable : List A → List A
  sort_stable xs = reverse (sort_loop [] xs)

  insert_back-perm : (x : A) (ys : List A) → Perm (insert_back x ys) (x ∷ ys)
  unfolding insert_back
  insert_back-perm x [] = Perm.refl _
  insert_back-perm x (y ∷ ys) = elim (Bool-cases (before x y)) [
    | inl e ↦ rw e (Perm.trans (Perm.cons y (insert_back-perm x ys)) (Perm.swap x y ys))
    | inr e ↦ rw e (Perm.refl _)
  ]

  sort_loop-perm : (sorted xs : List A) → Perm (sort_loop sorted xs) (sorted ++ xs)
  unfolding sort_loop
  sort_loop-perm sorted [] = rw append-nil (Perm.refl _)
  sort_loop-perm sorted (x ∷ xs) = Perm.trans (sort_loop-perm (insert_back x sorted) xs) (
      Perm.trans (Perm.append_right xs (insert_back-perm x sorted))
        (Perm.symm (perm_middle sorted xs)))

  pub sort_stable-perm : (xs : List A) → Perm (sort_stable xs) xs
  unfolding sort_stable
  sort_stable-perm xs = Perm.trans (reverse_perm (sort_loop [] xs)) (sort_loop-perm [] xs)

  length-insert_back : (x : A) (ys : List A) → length (insert_back x ys) ≡ length ys + 1
  unfolding insert_back
  length-insert_back x [] = refl
  length-insert_back x (y ∷ ys) = ground (arith, length-insert_back x ys)

  length-sort_loop : (sorted xs : List A) → length (sort_loop sorted xs) ≡ length sorted + length xs
  unfolding sort_loop
  length-sort_loop sorted [] = omega arith
  length-sort_loop sorted (x ∷ xs) =
      omega (arith, length-sort_loop (insert_back x sorted) xs, length-insert_back x sorted)

  pub length-sort_stable : (xs : List A) → length (sort_stable xs) ≡ length xs
  unfolding sort_stable
  length-sort_stable xs = omega (arith, length-reverse (sort_loop [] xs), length-sort_loop [] xs)
