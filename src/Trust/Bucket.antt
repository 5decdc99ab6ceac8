-- ===== src/Trust/Bucket.antt =====
-- The token bucket of one peer in internal/p2p/trust.go: what a call does to it, and how fast it fills.
use distributed_multi_agent.Base.{
  ℕ, ◌+◌, ◌-◌, ◌*◌, ◌≤◌, ◌<◌, ◌≡◌, ◌≢◌, ite, Bool, true, false, Option, none, some, arith, ltb,
  if◌then◌else◌, Bytes, Bytes-discrete, get, get-put, ◌^◌, Bool-cases, inl, inr,
}
use distributed_multi_agent.Double.Bounds.{round-le, seconds-le}
use distributed_multi_agent.Double.{seconds}
use distributed_multi_agent.Trust.{
  PeerRate, TrustTracker, allow_rate, known_peer, rate_limit_burst, rate_limit_per_second, refill,
  spend, token, refilled, elapsed,
}

-- The bucket after one call at the time `now`, which is not the zero time, and whether it passes.
unfoldable pub bucket : Option PeerRate → ℕ → PeerRate × Bool
bucket r now =
    let state = refill r now in
    if ltb state.tokens token
    then (state, false)
    else (record { tokens = state.tokens - token; last = state.last }, true)

-- `AllowRate` reads and writes the bucket of the peer that it is called with, and no other.
pub allow_rate-bucket :
    (t : TrustTracker) (pid q : Bytes) (now clock : ℕ)
    → 0 < now
    → (get (allow_rate t pid now clock).0.rates q
        ≡ ite
            (Bytes-discrete (known_peer pid) q)
            (some (bucket (get t.rates q) now).0)
            (get t.rates q))
      × ((allow_rate t pid now clock).1 ≡ (bucket (get t.rates (known_peer pid)) now).1)
unfolding allow_rate spend bucket
allow_rate-bucket t pid q now clock pos =
    let p = known_peer pid in
    let state = refill (get t.rates p) now in
    ground (
      arith,
      get-put t.rates p q state,
      get-put t.rates p q (record { tokens = state.tokens - token; last = state.last }),
    )

pub own_bucket :
    (t : TrustTracker) (pid q : Bytes) (now clock : ℕ)
    → 0 < now
    → known_peer pid ≡ q
    → get (allow_rate t pid now clock).0.rates q ≡ some (bucket (get t.rates q) now).0
own_bucket t pid q now clock pos e = ground (arith, allow_rate-bucket t pid q now clock pos)

pub other_bucket :
    (t : TrustTracker) (pid q : Bytes) (now clock : ℕ)
    → 0 < now
    → known_peer pid ≢ q
    → get (allow_rate t pid now clock).0.rates q ≡ get t.rates q
other_bucket t pid q now clock pos ne = ground (arith, allow_rate-bucket t pid q now clock pos)

-- No bucket holds more than the burst.
abbrev pub IsCapped : Option PeerRate → Type 0
IsCapped none = Unit {0}
IsCapped (some state) = state.tokens ≤ rate_limit_burst

-- The time of a refill, in which the rate adds a token in an eighth of a second.
abbrev pub billion : ℕ
billion = 1_000_000_000

-- What the rounding of one refill may add, a 2 ^ -47th part of a token.
abbrev pub slack : ℕ
slack = 2 ^ 35

abbrev pub rate : ℕ
rate = rate_limit_per_second * token

refilled-le :
    (state : PeerRate) (now r : ℕ)
    → r ≤ refilled state now
    → r ≤ rate_limit_burst
    → r * billion ≤ (state.tokens + slack) * billion + (now - state.last) * rate
unfolding refilled elapsed
refilled-le state now r below capped =
    let d = elapsed state.last now in
    let fewer : d ≤ now - state.last = ground arith in
    let x = state.tokens + seconds d * rate_limit_per_second in
    omega (arith, below, capped, round-le x, seconds-le d, fewer)

-- The bucket fills no faster than the rate: from the time `lo` on its tokens, times a billion, are at
-- most `c` and what the rate adds.
abbrev pub Holds : Option PeerRate → ℕ → ℕ → Type 0
Holds r lo c = (now : ℕ) → lo ≤ now → (refill r now).tokens * billion ≤ c + (now - lo) * rate

refill-Holds :
    (state : PeerRate) (lo : ℕ)
    → state.tokens ≤ rate_limit_burst
    → state.last ≡ lo
    → 0 < lo
    → Holds (some state) lo ((state.tokens + slack) * billion)
unfolding refill
refill-Holds state lo capped last pos now le =
    let r = refilled state now in
    elim (Bool-cases (ltb rate_limit_burst r)) [
      | inl e ↦
          let full : rate_limit_burst ≤ r = ground arith in
          ground (arith, refilled-le state now rate_limit_burst full (omega arith))
      | inr e ↦
          let small : r ≤ rate_limit_burst = ground arith in
          ground (arith, refilled-le state now r (omega arith) small)
    ]

pub refill-IsCapped : (r : Option PeerRate) (now : ℕ) → IsCapped r → IsCapped (some (refill r now))
unfolding refill
refill-IsCapped none now v = omega arith
refill-IsCapped (some state) now v = ground arith

pub bucket-IsCapped :
    (r : Option PeerRate) (now : ℕ) → IsCapped r → IsCapped (some (bucket r now).0)
unfolding bucket
bucket-IsCapped r now v = ground (arith, refill-IsCapped r now v)

last-bucket : (r : Option PeerRate) (now : ℕ) → (bucket r now).0.last ≡ now
unfolding bucket refill
last-bucket none now = ground arith
last-bucket (some state) now = ground arith

-- A call takes what it spends out of the bucket.
pub bucket-Holds :
    (r : Option PeerRate) (lo now c : ℕ)
    → IsCapped r
    → Holds r lo c
    → lo ≤ now
    → 0 < now
    → (c' : ℕ) × Holds (some (bucket r now).0) now c'
      × (c' + (if (bucket r now).1 then token else 0) * billion
          ≤ c + (now - lo) * rate + slack * billion)
unfolding bucket
bucket-Holds r lo now c v h le pos = (
  ((bucket r now).0.tokens + slack) * billion,
  refill-Holds (bucket r now).0 now (bucket-IsCapped r now v) (last-bucket r now) pos,
  ground (arith, h now le),
)
