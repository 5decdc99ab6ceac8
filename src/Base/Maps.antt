-- ===== src/Base/Maps.antt =====
-- Go maps keyed by strings, as association lists: a read finds the first entry of its key, a
-- write replaces that entry or adds one. `range` visits each key with the value that it reads.
use Prim.Native.Nat.{ℕ, ◌≤◌}
use distributed_multi_agent.Base.Text.{Bytes, Bytes-discrete}
use distributed_multi_agent.Base.Lists.{length, In}
use mathlib.Core.Bool.{Bool, true, false}
use mathlib.Core.List.{List, [], ◌∷◌}
use mathlib.Core.Logic.{◌≢◌, ◌⊎◌, inl, inr, ite}
use mathlib.Core.Option.{Option, none, some}
use mathlib.Core.Path.{◌≡◌, refl}
use native.Mathlib.Omega.{arith}

abbrev pub GoMap : Type 0 → Type 0
GoMap V = List (Bytes × V)

module _ {V : Type 0} where
  -- `v, ok := m[k]`
  unfoldable pub get : GoMap V → Bytes → Option V
  get [] k = none
  get ((j, v) ∷ m) k = ite (Bytes-discrete j k) (some v) (get m k)

  -- `m[k] = v`
  unfoldable pub put : GoMap V → Bytes → V → GoMap V
  put [] k v = (k, v) ∷ []
  put ((j, w) ∷ m) k v = ite (Bytes-discrete j k) ((k, v) ∷ m) ((j, w) ∷ put m k v)

  -- `delete(m, k)`
  unfoldable pub delete : GoMap V → Bytes → GoMap V
  delete [] k = []
  delete ((j, w) ∷ m) k = ite (Bytes-discrete j k) (delete m k) ((j, w) ∷ delete m k)

  unfoldable pub keys : GoMap V → List Bytes
  keys [] = []
  keys ((j, w) ∷ m) = j ∷ keys m

  pub get-put :
      (m : GoMap V) (k j : Bytes) (v : V)
      → get (put m k v) j ≡ ite (Bytes-discrete k j) (some v) (get m j)
  unfolding get put
  get-put [] k j v = refl
  get-put ((i, w) ∷ m) k j v = ground (arith, get-put m k j v)

  pub get-put_self : (m : GoMap V) (k : Bytes) (v : V) → get (put m k v) k ≡ some v
  get-put_self m k v = ground (arith, get-put m k k v)

  pub get-put_ne : (m : GoMap V) (k j : Bytes) (v : V) → k ≢ j → get (put m k v) j ≡ get m j
  get-put_ne m k j v h = ground (arith, get-put m k j v)

  pub get-delete :
      (m : GoMap V) (k j : Bytes) → get (delete m k) j ≡ ite (Bytes-discrete k j) none (get m j)
  unfolding get delete
  get-delete [] k j = ground arith
  get-delete ((i, w) ∷ m) k j = ground (arith, get-delete m k j)

  pub length-put-le : (m : GoMap V) (k : Bytes) (v : V) → length m ≤ length (put m k v)
  unfolding put
  length-put-le [] k v = omega arith
  length-put-le ((j, w) ∷ m) k v = ground (arith, length-put-le m k v)

-- `m[k]` on a map of numbers: a missing key reads 0.
unfoldable pub at : GoMap ℕ → Bytes → ℕ
at m k = elim (get m k) [ none ↦ 0 | some v ↦ v ]

pub at-put :
    (m : GoMap ℕ) (k j : Bytes) (v : ℕ) → at (put m k v) j ≡ ite (Bytes-discrete k j) v (at m j)
unfolding at
at-put m k j v = ground (arith, get-put m k j v)

pub at-put_self : (m : GoMap ℕ) (k : Bytes) (v : ℕ) → at (put m k v) k ≡ v
at-put_self m k v = ground (arith, at-put m k k v)

pub at-put_ne : (m : GoMap ℕ) (k j : Bytes) (v : ℕ) → k ≢ j → at (put m k v) j ≡ at m j
at-put_ne m k j v h = ground (arith, at-put m k j v)

-- Sets of strings, `map[string]struct{}`.
abbrev pub StringSet : Type 0
StringSet = GoMap (Unit {0})

unfoldable pub has : StringSet → Bytes → Bool
has s k = elim (get s k) [ none ↦ false | some _ ↦ true ]

unfoldable pub include : StringSet → Bytes → StringSet
include s k = put s k tt

pub has-include :
    (s : StringSet) (k j : Bytes) → has (include s k) j ≡ ite (Bytes-discrete k j) true (has s j)
unfolding has include
has-include s k j = ground (arith, get-put s k j tt)

pub has-delete :
    (s : StringSet) (k j : Bytes) → has (delete s k) j ≡ ite (Bytes-discrete k j) false (has s j)
unfolding has
has-delete s k j = ground (arith, get-delete s k j)

-- A key that reads something is among the keys.
pub keys_cover : {V : Type 0} (m : GoMap V) (k : Bytes) → In k (keys m) ⊎ (get m k ≡ none)
unfolding get keys
keys_cover [] k = inr refl
keys_cover ((j, w) ∷ m) k = elim (Bytes-discrete j k) [
  | yes p ↦ inl (inl p)
  | no p ↦ elim (keys_cover m k) [ inl h ↦ inl (inr h) | inr h ↦ inr (ground arith) ]
]

pub keys_cover_at : (m : GoMap ℕ) (k : Bytes) → In k (keys m) ⊎ (at m k ≡ 0)
unfolding at
keys_cover_at m k = elim (keys_cover m k) [ inl h ↦ inl h | inr h ↦ inr (ground arith) ]
