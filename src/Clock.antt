-- ===== src/Clock.antt =====
-- internal/clock/vector.go: vector clocks keyed by peer ID, with counters of 64 bits. A method of
-- `VectorClock` holds the mutex from its first line to its last, so each is one step.
pub mod Causal
pub mod Merge
use distributed_multi_agent.Base.{
  ℕ, ◌+◌, ◌%◌, ◌^◌, List, [], ◌∷◌, ◌++◌, Bool, true, false, not, ◌||◌, ◌&&◌, Option, none, some,
  ltb, if◌then◌else◌, Bytes, GoMap, get, put, keys, at,
}

-- uint64 counters wrap at this number.
abbrev pub u64 : ℕ
u64 = 2 ^ 64

pub data Ordering : Type 0 where
  before after concurrent equal : Ordering

pub record VectorClock : Type 0 where
  pub clock : GoMap ℕ

unfoldable pub new : VectorClock
new = record { clock = [] }

-- `vc.clock[nodeID]++`
unfoldable pub increment : VectorClock → Bytes → VectorClock
increment vc node_id = record { clock = put vc.clock node_id ((at vc.clock node_id + 1) % u64) }

-- The loop of `Merge` over the keys of `remote`.
unfoldable pub merge_keys : GoMap ℕ → GoMap ℕ → List Bytes → GoMap ℕ
merge_keys local remote [] = local
merge_keys local remote (k ∷ ks) =
    merge_keys (if ltb (at local k) (at remote k) then put local k (at remote k) else local) remote
      ks

unfoldable pub merge : VectorClock → GoMap ℕ → VectorClock
merge vc remote = record { clock = merge_keys vc.clock remote (keys remote) }

-- The loop `for k, v := range m { out[k] = v }` by which the program copies a map.
unfoldable pub copy_keys : {V : Type 0} → GoMap V → GoMap V → List Bytes → GoMap V
copy_keys m out [] = out
copy_keys m out (k ∷ ks) = copy_keys m (elim (get m k) [ none ↦ out | some v ↦ put out k v ]) ks

unfoldable pub copy : {V : Type 0} → GoMap V → GoMap V
copy m = copy_keys m [] (keys m)

unfoldable pub snapshot : VectorClock → GoMap ℕ
snapshot vc = copy vc.clock

-- The closure `check` of `Compare`, over the keys of one clock; the flags are `aLess` and `bLess`.
unfoldable pub check : GoMap ℕ → GoMap ℕ → List Bytes → Bool × Bool → Bool × Bool
check a b [] flags = flags
check a b (k ∷ ks) (a_less, b_less) =
    check a b ks (
      if ltb (at a k) (at b k) then true else a_less,
      if ltb (at b k) (at a k) then true else b_less,
    )

unfoldable pub verdict : Bool × Bool → Ordering
verdict (a_less, b_less) =
    if a_less && not b_less
    then before
    else if b_less && not a_less
    then after
    else if not a_less && not b_less
    then equal
    else concurrent

unfoldable pub compare : GoMap ℕ → GoMap ℕ → Ordering
compare a b = verdict (check a b (keys b) (check a b (keys a) (false, false)))

-- The loop of `Sum`; the sum wraps.
unfoldable pub sum_keys : GoMap ℕ → ℕ → List Bytes → ℕ
sum_keys vc s [] = s
sum_keys vc s (k ∷ ks) = sum_keys vc ((s + at vc k) % u64) ks

unfoldable pub sum : GoMap ℕ → ℕ
sum vc = sum_keys vc 0 (keys vc)
