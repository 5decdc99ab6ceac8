-- ===== src/Orchestrator/History/Causal.antt =====
-- The order of internal/ai/orchestrator.go on vector clocks, against that of internal/clock/vector.go.
use distributed_multi_agent.Base.{
  ℕ, ◌≡◌, ◌≢◌, refl, ap, ◌∙◌, ◌⊎◌, inl, inr, List, [], ◌∷◌, Bool, true, false, ◌||◌, arith, ltb,
  Bool-cases, if◌then◌else◌, Bytes, GoMap, In, keys_cover, keys_cover_at, has, has-include, keys,
  at, include, StringSet, Sign, less, same, greater,
}
use distributed_multi_agent.Clock.Causal.{
  Behind, Leq, Means, any_below, below_of_any, compare_iff_Means, le_of_not_any,
}
use distributed_multi_agent.Clock.{Ordering, before, after, concurrent, equal, compare}
use distributed_multi_agent.Orchestrator.History.{
  all_keys, compare_vector_clock, flags_sign, include_all, less_flags,
}

less_flags-any_below :
    (a b : GoMap ℕ) (ks : List Bytes) (x y : Bool)
    → less_flags a b ks (x, y) ≡ (x || any_below a b ks, y || any_below b a ks)
unfolding less_flags any_below
less_flags-any_below a b [] x y = ground arith
less_flags-any_below a b (k ∷ ks) x y = ground (
  arith,
  less_flags-any_below a b ks (if ltb (at a k) (at b k) then true else x)
      (if ltb (at b k) (at a k) then true else y),
)

has-include_all_old :
    (k : Bytes) (set : StringSet) (ks : List Bytes)
    → has set k ≡ true
    → has (include_all set ks) k ≡ true
unfolding include_all
has-include_all_old k set [] h = h
has-include_all_old k set (j ∷ ks) h =
    has-include_all_old k (include set j) ks (ground (arith, has-include set j k))

has-include_all :
    (k : Bytes) (set : StringSet) (ks : List Bytes) → In k ks → has (include_all set ks) k ≡ true
unfolding include_all
has-include_all k set [] h = absurd h
has-include_all k set (j ∷ ks) (inl e) =
    has-include_all_old k (include set j) ks (ground (arith, has-include set j k))
has-include_all k set (j ∷ ks) (inr h) = has-include_all k (include set j) ks h

In-has : (k : Bytes) (set : StringSet) → has set k ≡ true → In k (keys set)
unfolding has
In-has k set h = elim (keys_cover set k) [ inl i ↦ i | inr e ↦ absurd (ground arith) ]

-- A counter of either clock that is not 0 is among those that the loop visits.
In-all_keys : (a b : GoMap ℕ) (k : Bytes) → In k (keys a) ⊎ In k (keys b) → In k (all_keys a b)
unfolding all_keys
In-all_keys a b k (inl h) =
    In-has k _ (has-include_all_old k _ (keys b) (has-include_all k [] (keys a) h))
In-all_keys a b k (inr h) = In-has k _ (has-include_all k _ (keys b) h)

Behind-cases :
    (a b : GoMap ℕ) (ks : List Bytes)
    → ((k : Bytes) → In k (keys a) ⊎ In k (keys b) → In k ks)
    → ((any_below a b ks ≡ true) × Behind a b) ⊎ ((any_below a b ks ≡ false) × Leq b a)
Behind-cases a b ks covered = elim (Bool-cases (any_below a b ks)) [
  | inl e ↦ inl (e, below_of_any a b ks e)
  | inr e ↦ inr (
    e,
    λ k. elim (keys_cover_at b k) [
      | inl i ↦ le_of_not_any a b ks k e (covered k (inr i))
      | inr z ↦ omega arith
    ],
  )
]

-- What the comparison of the two clocks in internal/clock/vector.go comes to as a sign.
unfoldable pub ordering_sign : Ordering → Sign
ordering_sign before = less
ordering_sign after = greater
ordering_sign concurrent = same
ordering_sign equal = same

swap_cover : (a b : GoMap ℕ) (k : Bytes) → In k (keys b) ⊎ In k (keys a) → In k (all_keys a b)
swap_cover a b k (inl h) = In-all_keys a b k (inr h)
swap_cover a b k (inr h) = In-all_keys a b k (inl h)

sign_of_Means :
    (a b : GoMap ℕ) (o : Ordering) → Means o a b → ordering_sign (compare a b) ≡ ordering_sign o
sign_of_Means a b o m = ap ordering_sign ((compare_iff_Means a b o).1 m)

flags_sign-compare :
    (a b : GoMap ℕ)
    → flags_sign (any_below a b (all_keys a b), any_below b a (all_keys a b))
      ≡ ordering_sign (compare a b)
unfolding flags_sign ordering_sign
flags_sign-compare a b = elim (Behind-cases a b (all_keys a b) (In-all_keys a b)) [
  | inl (ea, x) ↦ elim (Behind-cases b a (all_keys a b) (swap_cover a b)) [
    | inl (eb, y) ↦ rw (ea, eb, sign_of_Means a b concurrent (x, y)) refl
    | inr (eb, y) ↦ rw (ea, eb, sign_of_Means a b before (y, x)) refl
  ]
  | inr (ea, x) ↦ elim (Behind-cases b a (all_keys a b) (swap_cover a b)) [
    | inl (eb, y) ↦ rw (ea, eb, sign_of_Means a b after (x, y)) refl
    | inr (eb, y) ↦ rw (ea, eb, sign_of_Means a b equal (y, x)) refl
  ]
]

-- On clocks that are not empty, the history orders messages by the same comparison of vector clocks
-- as the ledger: less for Before, greater for After, and a tie for Concurrent and for Equal.
pub compare_vector_clock_agrees :
    (a b : GoMap ℕ) → a ≢ [] → b ≢ [] → compare_vector_clock a b ≡ ordering_sign (compare a b)
unfolding compare_vector_clock
compare_vector_clock_agrees [] b p q = absurd (p refl)
compare_vector_clock_agrees (x ∷ a) [] p q = absurd (q refl)
compare_vector_clock_agrees (x ∷ a) (y ∷ b) p q =
    ap flags_sign (less_flags-any_below (x ∷ a) (y ∷ b) (all_keys (x ∷ a) (y ∷ b)) false false)
    ∙ flags_sign-compare (x ∷ a) (y ∷ b)
