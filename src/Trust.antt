-- ===== src/Trust.antt =====
-- internal/p2p/trust.go: rejects, quarantine and rate limits for each peer. Times are nanoseconds, 0
-- being the zero time, and the float64 token counts are the numbers of Double. A method of `TrustTracker` holds the
-- mutex while it touches the state, so each is one step.
pub mod Bucket
pub mod Quarantine
pub mod Rate
use distributed_multi_agent.Base.{
  ℕ, ◌+◌, ◌-◌, ◌*◌, ◌%◌, ◌^◌, List, [], ◌∷◌, ◌++◌, Bool, true, false, ◌&&◌, ◌||◌, Option, none,
  some, ite, ltb, leb, ◌==◌, if◌then◌else◌, length, take, Bytes, bytes, Bytes-discrete, GoMap,
  StringSet, get, put, keys, at, has, include,
}
use distributed_multi_agent.Chat.{incr}
use distributed_multi_agent.Clock.{u64}
use distributed_multi_agent.Double.{one, round, seconds}

abbrev pub quarantine_threshold : ℕ
quarantine_threshold = 3

-- One token.
abbrev pub token : ℕ
token = one

abbrev pub rate_limit_per_second : ℕ
rate_limit_per_second = 8

abbrev pub rate_limit_burst : ℕ
rate_limit_burst = 12 * token

pub record PeerRate : Type 0 where
  pub tokens : ℕ
  pub last : ℕ

pub record TrustTracker : Type 0 where
  pub invalid : GoMap ℕ
  pub quarantine : StringSet
  pub rates : GoMap PeerRate
  pub rate_limited : ℕ
  pub last_reason : Bytes

unfoldable pub new_trust_tracker : TrustTracker
new_trust_tracker = record {
  invalid = [];
  quarantine = [];
  rates = [];
  rate_limited = 0;
  last_reason = [];
}

unfoldable pub short_peer_id : Bytes → Bytes
short_peer_id pid = if leb (length pid) 8 then pid else take 8 pid

-- `t.invalid[pid] >= QuarantineThreshold`, a test of signed numbers.
unfoldable pub over_threshold : ℕ → Bool
over_threshold count = leb quarantine_threshold count && ltb count (2 ^ 63)

-- The lines that `RecordReject` and `AllowRate` share: count, quarantine, and note the reason.
unfoldable pub count_invalid : TrustTracker → Bytes → Bytes → TrustTracker
count_invalid t pid reason = record t {
  invalid = put t.invalid pid (incr (at t.invalid pid));
  quarantine =
      if over_threshold (incr (at t.invalid pid)) then include t.quarantine pid else t.quarantine;
  last_reason = short_peer_id pid ++ (bytes ": " ++ reason);
}

-- `if pid == "" { pid = "unknown" }`.
unfoldable pub known_peer : Bytes → Bytes
known_peer pid = ite (Bytes-discrete pid []) (bytes "unknown") pid

unfoldable pub record_reject : TrustTracker → Bytes → Bytes → TrustTracker
record_reject t pid reason =
    count_invalid t (known_peer pid) (ite (Bytes-discrete reason []) (bytes "invalid") reason)

unfoldable pub is_quarantined : TrustTracker → Bytes → Bool
is_quarantined t pid = ite (Bytes-discrete pid []) false (has t.quarantine pid)

-- `now.Sub(last)`, for a time that has passed: a `Duration` does not go beyond 63 bits.
unfoldable pub elapsed : ℕ → ℕ → ℕ
elapsed last now = if ltb (now - last) (2 ^ 63) then now - last else 2 ^ 63 - 1

-- `state.Tokens + delta * RateLimitPerSecond`, in which only the sum is rounded: a product by 8 is exact.
unfoldable pub refilled : PeerRate → ℕ → ℕ
refilled state now =
    round (state.tokens + seconds (elapsed state.last now) * rate_limit_per_second) 1

-- The bucket of a peer at the time `now`, before this call spends a token.
unfoldable pub refill : Option PeerRate → ℕ → PeerRate
refill none now = record { tokens = rate_limit_burst; last = now }
refill (some state) now =
    if state.last == 0
    then record { tokens = rate_limit_burst; last = now }
    else if ltb state.last now
    then if ltb rate_limit_burst (refilled state now)
      then record { tokens = rate_limit_burst; last = now }
      else record { tokens = refilled state now; last = now }
    else record { tokens = state.tokens; last = now }

-- The end of `AllowRate`, with the refilled bucket. Taking a token off a number above it is exact.
unfoldable pub spend : TrustTracker → Bytes → PeerRate → TrustTracker × Bool
spend t pid state =
    if ltb state.tokens token
    then (
      record (count_invalid t pid (bytes "rate_limited")) {
        rate_limited = incr t.rate_limited;
        rates = put t.rates pid state;
      },
      false,
    )
    else (
      record t {
        rates = put t.rates pid (record { tokens = state.tokens - token; last = state.last });
      },
      true,
    )

-- `AllowRate`; `clock` is what `time.Now()` gives.
unfoldable pub allow_rate : TrustTracker → Bytes → ℕ → ℕ → TrustTracker × Bool
allow_rate t pid now clock =
    let pid' = known_peer pid in
    let now' : ℕ = if now == 0 then clock else now in spend t pid' (refill (get t.rates pid') now')

-- The loop of `totalInvalid`.
unfoldable pub total_invalid : GoMap ℕ → ℕ → List Bytes → ℕ
total_invalid invalid total [] = total
total_invalid invalid total (pid ∷ pids) =
    total_invalid invalid ((total + at invalid pid) % u64) pids

pub record TrustStats : Type 0 where
  pub rejected : ℕ
  pub quarantined_peers : ℕ
  pub rate_limited : ℕ
  pub last_reject_reason : Bytes

unfoldable pub trust_stats : TrustTracker → TrustStats
trust_stats t = record {
  rejected = total_invalid t.invalid 0 (keys t.invalid);
  quarantined_peers = length t.quarantine;
  rate_limited = t.rate_limited;
  last_reject_reason = t.last_reason;
}
