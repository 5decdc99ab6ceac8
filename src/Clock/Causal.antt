-- ===== src/Clock/Causal.antt =====
-- `Compare` of internal/clock/vector.go against the pointwise order on the counters that the two
-- clocks read, with no mention of keys, entries or the order of a `range`.
use distributed_multi_agent.Base.{
  ℕ, ◌≤◌, ◌<◌, ◌≡◌, refl, subst, ◌↔◌, ◌⊎◌, inl, inr, List, [], ◌∷◌, ◌++◌, Bool, true, false, ◌||◌,
  arith, ltb, Bool-cases, Bytes, GoMap, In, In-append_left, In-append_right, keys_cover_at, keys,
  at, if◌then◌else◌,
}
use distributed_multi_agent.Clock.{
  Ordering, before, after, concurrent, equal, check, verdict, compare,
}

-- Every counter of `a` is at most that of `b`.
abbrev pub Leq : GoMap ℕ → GoMap ℕ → Type 0
Leq a b = (k : Bytes) → at a k ≤ at b k

-- Some peer whose counter in `a` is below that in `b`.
abbrev pub Behind : GoMap ℕ → GoMap ℕ → Type 0
Behind a b = (k : Bytes) × (at a k < at b k)

unfoldable pub any_below : GoMap ℕ → GoMap ℕ → List Bytes → Bool
any_below a b [] = false
any_below a b (k ∷ ks) = ltb (at a k) (at b k) || any_below a b ks

check-any_below :
    (a b : GoMap ℕ) (ks : List Bytes) (x y : Bool)
    → check a b ks (x, y) ≡ (x || any_below a b ks, y || any_below b a ks)
unfolding check any_below
check-any_below a b [] x y = ground arith
check-any_below a b (k ∷ ks) x y = ground (
  arith,
  check-any_below a b ks (if ltb (at a k) (at b k) then true else x)
      (if ltb (at b k) (at a k) then true else y),
)

check-append :
    (a b : GoMap ℕ) (ks js : List Bytes) (f : Bool × Bool)
    → check a b (ks ++ js) f ≡ check a b js (check a b ks f)
unfolding check
check-append a b [] js f = refl
check-append a b (k ∷ ks) js f = check-append a b ks js _

pub below_of_any : (d m : GoMap ℕ) (ks : List Bytes) → any_below d m ks ≡ true → Behind d m
unfolding any_below
below_of_any d m [] h = cc
below_of_any d m (k ∷ ks) h = elim (Bool-cases (ltb (at d k) (at m k))) [
  | inl e ↦ (k, ground arith)
  | inr e ↦ below_of_any d m ks (ground arith)
]

pub le_of_not_any :
    (d m : GoMap ℕ) (ks : List Bytes) (k : Bytes)
    → any_below d m ks ≡ false
    → In k ks
    → at m k ≤ at d k
unfolding any_below
le_of_not_any d m [] k h i = absurd i
le_of_not_any d m (j ∷ ks) k h (inl e) = rw (← e) (ground arith)
le_of_not_any d m (j ∷ ks) k h (inr i) = le_of_not_any d m ks k (ground arith) i

-- The keys that `Compare` visits.
abbrev visited : GoMap ℕ → GoMap ℕ → List Bytes
visited a b = keys a ++ keys b

compare-flags :
    (a b : GoMap ℕ)
    → compare a b ≡ verdict (any_below a b (visited a b), any_below b a (visited a b))
unfolding compare
compare-flags a b =
    rw (← check-append a b (keys a) (keys b) (false, false), check-any_below a b (visited a b))

-- A flag is raised exactly by some counter that is behind.
flag_a_cases :
    (a b : GoMap ℕ)
    → ((any_below a b (visited a b) ≡ true) × Behind a b)
      ⊎ ((any_below a b (visited a b) ≡ false) × Leq b a)
flag_a_cases a b = elim (Bool-cases (any_below a b (visited a b))) [
  | inl e ↦ inl (e, below_of_any a b _ e)
  | inr e ↦ inr (
    e,
    λ k. elim (keys_cover_at b k) [
      | inl i ↦ le_of_not_any a b _ k e (In-append_right k (keys a) (keys b) i)
      | inr z ↦ omega arith
    ],
  )
]

flag_b_cases :
    (a b : GoMap ℕ)
    → ((any_below b a (visited a b) ≡ true) × Behind b a)
      ⊎ ((any_below b a (visited a b) ≡ false) × Leq a b)
flag_b_cases a b = elim (Bool-cases (any_below b a (visited a b))) [
  | inl e ↦ inl (e, below_of_any b a _ e)
  | inr e ↦ inr (
    e,
    λ k. elim (keys_cover_at a k) [
      | inl i ↦ le_of_not_any b a _ k e (In-append_left k (keys a) (keys b) i)
      | inr z ↦ omega arith
    ],
  )
]

-- What a verdict says of the counters.
abbrev pub Means : Ordering → GoMap ℕ → GoMap ℕ → Type 0
Means before a b = Leq a b × Behind a b
Means after a b = Leq b a × Behind b a
Means equal a b = Leq a b × Leq b a
Means concurrent a b = Behind a b × Behind b a

-- `Compare` answers with the causal relation that the counters stand in, whichever it is: Before
-- if no counter of the first clock is above the second's and some is below, After for the reverse,
-- Equal if all agree, and Concurrent if each clock is behind the other somewhere.
pub compare-Means : (a b : GoMap ℕ) → Means (compare a b) a b
unfolding verdict
compare-Means a b = rw (compare-flags a b) (elim (flag_a_cases a b) [
  | inl (ea, x) ↦ elim (flag_b_cases a b) [
    | inl (eb, y) ↦ rw (ea, eb) (x, y)
    | inr (eb, y) ↦ rw (ea, eb) (y, x)
  ]
  | inr (ea, x) ↦ elim (flag_b_cases a b) [
    | inl (eb, y) ↦ rw (ea, eb) (x, y)
    | inr (eb, y) ↦ rw (ea, eb) (y, x)
  ]
])

Behind-not_Leq : (a b : GoMap ℕ) → Behind a b → Leq b a → ⊥
Behind-not_Leq a b (k, h) l = omega (arith, l k)

Means-unique : (o p : Ordering) (a b : GoMap ℕ) → Means o a b → Means p a b → o ≡ p
Means-unique before before a b m n = refl
Means-unique before after a b m n = absurd (Behind-not_Leq a b m.1 n.0)
Means-unique before concurrent a b m n = absurd (Behind-not_Leq b a n.1 m.0)
Means-unique before equal a b m n = absurd (Behind-not_Leq a b m.1 n.1)
Means-unique after before a b m n = absurd (Behind-not_Leq b a m.1 n.0)
Means-unique after after a b m n = refl
Means-unique after concurrent a b m n = absurd (Behind-not_Leq a b n.0 m.0)
Means-unique after equal a b m n = absurd (Behind-not_Leq b a m.1 n.0)
Means-unique concurrent before a b m n = absurd (Behind-not_Leq b a m.1 n.0)
Means-unique concurrent after a b m n = absurd (Behind-not_Leq a b m.0 n.0)
Means-unique concurrent concurrent a b m n = refl
Means-unique concurrent equal a b m n = absurd (Behind-not_Leq a b m.0 n.1)
Means-unique equal before a b m n = absurd (Behind-not_Leq a b n.1 m.1)
Means-unique equal after a b m n = absurd (Behind-not_Leq b a n.1 m.0)
Means-unique equal concurrent a b m n = absurd (Behind-not_Leq a b n.0 m.1)
Means-unique equal equal a b m n = refl

-- For any two clocks and any verdict, `Compare` returns that verdict exactly when the counters
-- stand in the relation it names: Before and After for the strict pointwise order, Equal for equal
-- counters, Concurrent for clocks each of which is behind the other somewhere.
pub compare_iff_Means : (a b : GoMap ℕ) (o : Ordering) → (compare a b ≡ o) ↔ Means o a b
compare_iff_Means a b o = (
  λ e. subst (λ p. Means p a b) e (compare-Means a b),
  λ m. Means-unique (compare a b) o a b (compare-Means a b) m,
)

unfoldable pub converse : Ordering → Ordering
converse before = after
converse after = before
converse concurrent = concurrent
converse equal = equal

Means-converse : (o : Ordering) (a b : GoMap ℕ) → Means o a b → Means (converse o) b a
unfolding converse
Means-converse before a b m = m
Means-converse after a b m = m
Means-converse concurrent a b m = (m.1, m.0)
Means-converse equal a b m = (m.1, m.0)

-- Swapping the clocks swaps Before and After, and keeps Concurrent and Equal.
pub compare_swap : (a b : GoMap ℕ) → compare b a ≡ converse (compare a b)
compare_swap a b =
    (compare_iff_Means b a (converse (compare a b))).1
      (Means-converse (compare a b) a b (compare-Means a b))

-- Happened-before is transitive: a clock Before one that is Before a third is Before the third.
pub compare_before_trans :
    (a b c : GoMap ℕ) → compare a b ≡ before → compare b c ≡ before → compare a c ≡ before
compare_before_trans a b c p q =
    let m = (compare_iff_Means a b before).0 p in
    let n = (compare_iff_Means b c before).0 q in
    let (k, lt) = m.1 in
    (compare_iff_Means a c before).1
      (λ j. omega (arith, m.0 j, n.0 j), (k, omega (arith, lt, n.0 k)))

Means-congr :
    (o : Ordering) (a a' b : GoMap ℕ)
    → ((k : Bytes) → at a' k ≡ at a k)
    → Means o a b
    → Means o a' b
Means-congr before a a' b e ((l, (k, h))) = (λ j. omega (arith, e j, l j), (k, omega (arith, e k)))
Means-congr after a a' b e ((l, (k, h))) = (λ j. omega (arith, e j, l j), (k, omega (arith, e k)))
Means-congr concurrent a a' b e (((j, g), (k, h))) =
    ((j, omega (arith, e j)), (k, omega (arith, e k)))
Means-congr equal a a' b e ((l, m)) = (λ j. omega (arith, e j, l j), λ j. omega (arith, e j, m j))

-- `Compare` depends on a clock only through the counters that it reads.
pub compare_congr :
    (a a' b : GoMap ℕ) → ((k : Bytes) → at a' k ≡ at a k) → compare a' b ≡ compare a b
compare_congr a a' b e =
    (compare_iff_Means a' b (compare a b)).1
      (Means-congr (compare a b) a a' b e (compare-Means a b))
