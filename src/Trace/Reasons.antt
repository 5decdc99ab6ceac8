-- ===== src/Trace/Reasons.antt =====
-- internal/p2p/pubsub.go: the short texts of a trace, and the reason by which it calls a refusal.
use distributed_multi_agent.Base.{
  ℕ, List, [], ◌∷◌, ◌++◌, ◌||◌, Option, none, some, leb, if◌then◌else◌, length, take, Bytes, bytes,
  GoMap, keys, at, decimal, contains, replace_all,
}
use distributed_multi_agent.Validate.{is_empty}

unfoldable pub short_id : Bytes → Bytes
short_id id = if leb (length id) 8 then id else take 8 id

unfoldable pub short_hash : Bytes → Bytes
short_hash hash =
    if is_empty hash then bytes "<empty>" else if leb (length hash) 12 then hash else take 12 hash

unfoldable pub truncate : Bytes → ℕ → Bytes
truncate s max = if leb (length s) max then s else take max s ++ bytes "..."

unfoldable pub clock_summary : GoMap ℕ → Bytes → Bytes
clock_summary clock sender_id = elim (keys clock) [
  | [] ↦ bytes "{}"
  | k ∷ ks ↦
      bytes "{sender:"
      ++ (decimal (at clock sender_id)
          ++ (bytes " entries:" ++ (decimal (length (k ∷ ks)) ++ bytes "}")))
]

-- The reasons that `normalizeRejectReason` looks for, in its order.
abbrev pub known_reasons : List Bytes
known_reasons =
    bytes "bad_signature"
    ∷ bytes "from_peer_mismatch"
    ∷ bytes "invalid_json"
    ∷ bytes "missing_sender_clock"
    ∷ bytes "rate_limited"
    ∷ bytes "quarantined"
    ∷ bytes "malformed"
    ∷ bytes "payload too large"
    ∷ bytes "empty payload"
    ∷ []

-- The loop over the reasons.
unfoldable pub find_reason : Bytes → List Bytes → Option Bytes
find_reason msg [] = none
find_reason msg (reason ∷ reasons) =
    let rest = find_reason msg reasons in
    if contains msg reason || contains (replace_all msg (bytes " ") (bytes "_")) reason
    then some reason
    else rest

unfoldable pub normalize_reject_reason : Option Bytes → Bytes
normalize_reject_reason none = []
normalize_reject_reason (some msg) = elim (find_reason msg known_reasons) [
  | some reason ↦ reason
  | none ↦
      if contains msg (bytes "bad signature")
      then bytes "bad_signature"
      else if contains msg (bytes "invalid character")
      then bytes "invalid_json"
      else truncate msg 48
]
