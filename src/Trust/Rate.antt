-- ===== src/Trust/Rate.antt =====
-- The token bucket of internal/p2p/trust.go: how many packets a peer gets through in a time, and that
-- peers do not share a bucket.
use distributed_multi_agent.Base.{
  ℕ, ◌+◌, ◌-◌, ◌*◌, ◌≤◌, ◌<◌, ◌≡◌, ◌≢◌, sym, ap, subst, ◌∙◌, ite, if_pos, if_neg, List, [], ◌∷◌,
  Option, some, arith, if◌then◌else◌, Bytes, Bytes-discrete, get,
}
use distributed_multi_agent.Trust.{
  PeerRate, TrustTracker, allow_rate, known_peer, rate_limit_burst, token,
}
use distributed_multi_agent.Trust.Bucket.{
  Holds, IsCapped, allow_rate-bucket, billion, bucket, bucket-Holds, bucket-IsCapped, other_bucket,
  own_bucket, rate, refill-IsCapped, slack,
}

-- Calls of `AllowRate`, each with its peer and its time.
abbrev pub Calls : Type 0
Calls = List (Bytes × ℕ)

-- Times ascend from `lo` to `hi`.
abbrev pub Ascends : ℕ → Calls → ℕ → Type 0
Ascends lo [] hi = lo ≤ hi
Ascends lo ((p, now) ∷ calls) hi = (lo ≤ now) × Ascends now calls hi

-- How many of the calls for the peer `pid` pass.
unfoldable pub passed : TrustTracker → Calls → Bytes → ℕ
passed t [] pid = 0
passed t ((p, now) ∷ calls) pid =
    ite (Bytes-discrete (known_peer p) pid) (if (allow_rate t p now now).1 then 1 else 0) 0
    + passed (allow_rate t p now now).0 calls pid

Ascends-le : (calls : Calls) (lo hi : ℕ) → Ascends lo calls hi → lo ≤ hi
Ascends-le [] lo hi a = a
Ascends-le ((p, now) ∷ calls) lo hi (le, a) = omega (arith, Ascends-le calls now hi a)

-- How many of the calls are for the peer `pid`.
abbrev pub asked : Calls → Bytes → ℕ
asked [] pid = 0
asked ((p, now) ∷ calls) pid = ite (Bytes-discrete (known_peer p) pid) 1 0 + asked calls pid

passed-Holds :
    (calls : Calls) (t : TrustTracker) (pid : Bytes) (lo hi c : ℕ)
    → 0 < lo
    → Ascends lo calls hi
    → IsCapped (get t.rates pid)
    → Holds (get t.rates pid) lo c
    → passed t calls pid * (token * billion)
      ≤ c + (hi - lo) * rate + asked calls pid * (slack * billion)
unfolding passed
passed-Holds [] t pid lo hi c pos a v h = omega arith
passed-Holds ((p, now) ∷ calls) t pid lo hi c pos (le, a) v h =
    let t' = (allow_rate t p now now).0 in
    let reads = allow_rate-bucket t p pid now now (omega arith) in
    elim (Bytes-discrete (known_peer p) pid) [
      | yes e ↦
          let (c', h', spent) = bucket-Holds (get t.rates pid) lo now c v h le (omega arith) in
          let after : get t'.rates pid ≡ some (bucket (get t.rates pid) now).0 =
            own_bucket t p pid now now (omega arith) e in
          let rest =
            passed-Holds calls t' pid now hi c' (omega arith) a
              (subst IsCapped (sym after) (bucket-IsCapped (get t.rates pid) now v))
              (subst (λ r. Holds r now c') (sym after) h') in
          let same = reads.1 ∙ ap (λ q. (bucket (get t.rates q) now).1) e in
          rw (if_pos _ e, if_pos _ e, same) (ground (arith, rest, spent, Ascends-le calls now hi a))
      | no ne ↦
          let after : get t'.rates pid ≡ get t.rates pid =
            other_bucket t p pid now now (omega arith) ne in
          let rest =
            passed-Holds calls t' pid now hi (c + (now - lo) * rate) (omega arith) a
              (subst IsCapped (sym after) v)
              (subst (λ r. Holds r now (c + (now - lo) * rate)) (sym after)
                (λ n l. omega (arith, h n (omega arith)))) in
          rw (if_neg _ ne, if_neg _ ne) (omega (arith, rest, Ascends-le calls now hi a))
    ]

capped-Holds : (r : Option PeerRate) (lo : ℕ) → IsCapped r → Holds r lo (rate_limit_burst * billion)
capped-Holds r lo v now le = omega (arith, refill-IsCapped r now v)

-- Flood protection: of any calls at times that ascend from `lo` to `hi`, interleaved with those of
-- other peers, a peer whose bucket holds at most the burst gets at most 12 packets through, and 8
-- more for each second, and for the rounding of the token counts a 2 ^ -47th part of a packet for each
-- of its own calls.
pub passed_bound :
    (t : TrustTracker) (calls : Calls) (pid : Bytes) (lo hi : ℕ)
    → 0 < lo
    → Ascends lo calls hi
    → IsCapped (get t.rates pid)
    → passed t calls pid * (token * billion)
      ≤ rate_limit_burst * billion + (hi - lo) * rate + asked calls pid * (slack * billion)
passed_bound t calls pid lo hi pos a v =
    passed-Holds calls t pid lo hi (rate_limit_burst * billion) pos a v
      (capped-Holds (get t.rates pid) lo v)

-- `AllowRate` never fills a bucket above the burst.
pub allow_rate-IsCapped :
    (t : TrustTracker) (pid q : Bytes) (now clock : ℕ)
    → 0 < now
    → IsCapped (get t.rates q)
    → IsCapped (get (allow_rate t pid now clock).0.rates q)
allow_rate-IsCapped t pid q now clock pos v = elim (Bytes-discrete (known_peer pid) q) [
  | yes e ↦
      subst IsCapped (sym (own_bucket t pid q now clock pos e))
        (bucket-IsCapped (get t.rates q) now v)
  | no ne ↦ subst IsCapped (sym (other_bucket t pid q now clock pos ne)) v
]

-- What a peer is allowed does not depend on the packets of another peer.
pub other_peer_unaffected :
    (t : TrustTracker) (pid q : Bytes) (now later c d : ℕ)
    → 0 < now
    → 0 < later
    → known_peer pid ≢ known_peer q
    → (allow_rate (allow_rate t pid now c).0 q later d).1 ≡ (allow_rate t q later d).1
other_peer_unaffected t pid q now later c d pos pos' ne =
    let t' = (allow_rate t pid now c).0 in
    let k = known_peer q in
    (allow_rate-bucket t' q k later d pos').1
    ∙ ap (λ r. (bucket r later).1) (other_bucket t pid k now c pos ne)
    ∙ sym (allow_rate-bucket t q k later d pos').1
