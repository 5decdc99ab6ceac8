-- ===== src/Clock/Merge.antt =====
-- `Increment`, `Merge`, `Snapshot` and `Sum` of internal/clock/vector.go: what each counter reads
-- afterwards, and how a clock stands to the one before it under `Compare`.
use distributed_multi_agent.Base.{
  ℕ, ◌+◌, ◌%◌, ◌≤◌, ◌<◌, ◌≡◌, refl, sym, ◌∙◌, ◌≢◌, ◌↔◌, ◌⊎◌, inl, inr, ite, List, [], ◌∷◌, none,
  some, arith, ltb, if◌then◌else◌, Bytes, Bytes-discrete, GoMap, In, get, put, keys, at, get-put,
  at-put, keys_cover, keys_cover_at, Option-cases,
}
use distributed_multi_agent.Clock.Causal.{Leq, compare_iff_Means}
use distributed_multi_agent.Clock.{
  VectorClock, before, equal, u64, increment, merge_keys, merge, compare, copy_keys, copy, snapshot,
}

-- The larger of two counters.
abbrev pub larger : ℕ → ℕ → ℕ
larger m n = if ltb m n then n else m

abbrev raise : GoMap ℕ → GoMap ℕ → Bytes → GoMap ℕ
raise local remote k = if ltb (at local k) (at remote k) then put local k (at remote k) else local

at-raise :
    (local remote : GoMap ℕ) (k j : Bytes)
    → at (raise local remote k) j
      ≡ ite (Bytes-discrete k j) (larger (at local j) (at remote j)) (at local j)
at-raise local remote k j = ground (arith, at-put local k j (at remote k))

merge_keys_bounds :
    (local remote : GoMap ℕ) (ks : List Bytes) (j : Bytes)
    → (at local j ≤ at (merge_keys local remote ks) j)
      × (at (merge_keys local remote ks) j ≤ larger (at local j) (at remote j))
unfolding merge_keys
merge_keys_bounds local remote [] j = ground arith
merge_keys_bounds local remote (k ∷ ks) j =
    ground (arith, at-raise local remote k j, merge_keys_bounds (raise local remote k) remote ks j)

merge_keys_visits :
    (local remote : GoMap ℕ) (ks : List Bytes) (j : Bytes)
    → In j ks
    → at remote j ≤ at (merge_keys local remote ks) j
unfolding merge_keys
merge_keys_visits local remote [] j h = absurd h
merge_keys_visits local remote (k ∷ ks) j (inl e) =
    ground (arith, at-raise local remote k j, merge_keys_bounds (raise local remote k) remote ks j)
merge_keys_visits local remote (k ∷ ks) j (inr h) =
    merge_keys_visits (raise local remote k) remote ks j h

-- After `Merge` every counter is the larger of the local and the remote one; a peer that neither
-- clock knows still reads 0, whatever the order in which the remote entries are visited.
pub at-merge :
    (vc : VectorClock) (remote : GoMap ℕ) (j : Bytes)
    → at (merge vc remote).clock j ≡ larger (at vc.clock j) (at remote j)
unfolding merge
at-merge vc remote j = elim (keys_cover_at remote j) [
  | inl i ↦ ground (
    arith,
    merge_keys_bounds vc.clock remote (keys remote) j,
    merge_keys_visits vc.clock remote (keys remote) j i,
  )
  | inr z ↦ ground (arith, merge_keys_bounds vc.clock remote (keys remote) j)
]

-- `Merge` gives the least clock above both: a clock is above it exactly if it is above the local and
-- the remote clock.
pub merge-IsLeast :
    (vc : VectorClock) (remote c : GoMap ℕ)
    → Leq (merge vc remote).clock c ↔ (Leq vc.clock c × Leq remote c)
merge-IsLeast vc remote c = (
  λ h. (
    λ k. ground (arith, at-merge vc remote k, h k),
    λ k. ground (arith, at-merge vc remote k, h k),
  ),
  λ (l, r) k. ground (arith, at-merge vc remote k, l k, r k),
)

-- Merging the same remote clock again, and merging two remote clocks in either order, leaves the
-- same counters.
pub merge_order :
    (vc : VectorClock) (r s : GoMap ℕ) (j : Bytes)
    → (at (merge (merge vc r) r).clock j ≡ at (merge vc r).clock j)
      × (at (merge (merge vc r) s).clock j ≡ at (merge (merge vc s) r).clock j)
merge_order vc r s j = ground (
  arith,
  at-merge vc r j,
  at-merge vc s j,
  at-merge (merge vc r) r j,
  at-merge (merge vc r) s j,
  at-merge (merge vc s) r j,
)

pub at-increment :
    (vc : VectorClock) (node_id j : Bytes)
    → at (increment vc node_id).clock j
      ≡ ite (Bytes-discrete node_id j) ((at vc.clock node_id + 1) % u64) (at vc.clock j)
unfolding increment
at-increment vc node_id j = at-put vc.clock node_id j _

-- Unless the 64-bit counter wraps, the clock after `Increment` comes strictly after the clock
-- before it, and only the node's own counter has changed, by one.
pub increment-compare :
    (vc : VectorClock) (node_id : Bytes)
    → at vc.clock node_id + 1 < u64
    → (compare vc.clock (increment vc node_id).clock ≡ before)
      × (at (increment vc node_id).clock node_id ≡ at vc.clock node_id + 1)
      × ((j : Bytes) → node_id ≢ j → at (increment vc node_id).clock j ≡ at vc.clock j)
increment-compare vc node_id h = (
  (compare_iff_Means vc.clock (increment vc node_id).clock before).1 (
    λ k. ground (arith, at-increment vc node_id k),
    (node_id, ground (arith, at-increment vc node_id node_id)),
  ),
  ground (arith, at-increment vc node_id node_id),
  λ j ne. ground (arith, at-increment vc node_id j),
)

-- A node that receives a clock, merges it and increments its own counter stamps its next message
-- strictly after the one received, unless its 64-bit counter wraps.
pub merge-increment-compare :
    (vc : VectorClock) (remote : GoMap ℕ) (node_id : Bytes)
    → at (merge vc remote).clock node_id + 1 < u64
    → compare remote (increment (merge vc remote) node_id).clock ≡ before
merge-increment-compare vc remote node_id h =
    let up = at-increment (merge vc remote) node_id in
    (compare_iff_Means remote (increment (merge vc remote) node_id).clock before).1 (
      λ k. ground (arith, up k, at-merge vc remote k),
      (node_id, ground (arith, up node_id, at-merge vc remote node_id)),
    )

get-copy_keys :
    {V : Type 0} (m out : GoMap V) (ks : List Bytes) (j : Bytes)
    → (get (copy_keys m out ks) j ≡ get out j) ⊎ (get (copy_keys m out ks) j ≡ get m j)
unfolding copy_keys
get-copy_keys m out [] j = inl refl
get-copy_keys m out (k ∷ ks) j = elim (Option-cases (get m k)) [
  | inl e ↦ rw (e, copy_keys) (get-copy_keys m out ks j)
  | inr (v, e) ↦
      rw (e, copy_keys) (ground (arith, get-put out k j v, get-copy_keys m (put out k v) ks j))
]

copy_keys_visits :
    {V : Type 0} (m out : GoMap V) (ks : List Bytes) (j : Bytes) (v : V)
    → get m j ≡ some v
    → In j ks
    → get (copy_keys m out ks) j ≡ some v
unfolding copy_keys
copy_keys_visits m out [] j v h i = absurd i
copy_keys_visits m out (k ∷ ks) j v h (inl e) =
    let found : get m k ≡ some v = rw e h in
    rw (found, copy_keys) (ground (arith, get-put out k j v, get-copy_keys m (put out k v) ks j))
copy_keys_visits m out (k ∷ ks) j v h (inr i) =
    copy_keys_visits m (elim (get m k) [ none ↦ out | some w ↦ put out k w ]) ks j v h i

-- A copied map reads as the map it was copied from, at every key, missing keys included.
pub get-copy : {V : Type 0} (m : GoMap V) (j : Bytes) → get (copy m) j ≡ get m j
unfolding copy get
get-copy m j = elim (Option-cases (get m j)) [
  | inl e ↦ ground (arith, get-copy_keys m [] (keys m) j)
  | inr (v, e) ↦ elim (keys_cover m j) [
    | inl i ↦ copy_keys_visits m [] (keys m) j v e i ∙ sym e
    | inr z ↦ ground arith
  ]
]

pub at-copy : (m : GoMap ℕ) (j : Bytes) → at (copy m) j ≡ at m j
unfolding at
at-copy m j = rw (get-copy m j, at)

-- A snapshot stands Equal to the clock under `Compare`.
pub compare-snapshot : (vc : VectorClock) → compare (snapshot vc) vc.clock ≡ equal
unfolding snapshot
compare-snapshot vc =
    (compare_iff_Means (copy vc.clock) vc.clock equal).1
      (λ k. omega (arith, at-copy vc.clock k), λ k. omega (arith, at-copy vc.clock k))
