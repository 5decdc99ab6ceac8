-- ===== src/Validate/Blame.antt =====
-- Whom the rejects of internal/p2p/validate.go are charged to, and what that does to an honest peer
-- that forwards the packets of another one.
use distributed_multi_agent.Base.{
  ◌+◌, ◌%◌, ◌⊎◌, refl, sym, subst, ite, at-put, Bytes-discrete, bytes, Option, none, ◌≡◌, ◌≢◌, ap,
  ◌∙◌, inl, inr, [], ◌∷◌, true, false, some, arith, Bytes, at,
}
use distributed_multi_agent.Chat.{incr}
use distributed_multi_agent.Clock.{u64}
use distributed_multi_agent.Crypto.{Libp2p}
use distributed_multi_agent.Trust.Quarantine.{
  rejects, run, run_keeps_quarantine, step, third_reject_quarantines,
}
use distributed_multi_agent.Trust.{
  TrustTracker, count_invalid, is_quarantined, known_peer, record_reject,
}
use distributed_multi_agent.Types.{Codec, Message}
use distributed_multi_agent.Validate.Signed.{IsRejection, claimed, signed_cases}
use distributed_multi_agent.Validate.{
  Verdict, peer_id_string, quarantined, reject, record_validation_reject, validate_signed_message,
}

module _ (p : Libp2p) (c : Codec) where
  -- Whom a reject blames: the peer that forwarded the message, or where none is known the sender that
  -- the message claims; who has no name is `unknown`.
  abbrev pub accused : Option Message → Bytes → Bytes
  accused msg fwd =
      let culprit = ite (Bytes-discrete fwd []) (claimed msg) (p.encode fwd) in
      ite (Bytes-discrete culprit []) (bytes "unknown") culprit

  -- The count of `peer` after a tracker has counted one packet against `culprit`; without a tracker
  -- there is none afterwards.
  abbrev pub CountsOne : Option TrustTracker → Option TrustTracker → Bytes → Bytes → Type 0
  CountsOne none after culprit peer = after ≡ none
  CountsOne (some t) after culprit peer =
      (t' : TrustTracker) × (after ≡ some t')
      × (at t'.invalid peer
          ≡ ite (Bytes-discrete culprit peer) ((at t.invalid peer + 1) % u64) (at t.invalid peer))

  charge_culprit :
      (t : TrustTracker) (fwd sender reason : Bytes)
      → record_validation_reject p c (some t) fwd sender reason
        ≡ some (
            record_reject t
              (ite
                (Bytes-discrete fwd [])
                (ite (Bytes-discrete sender []) (bytes "unknown") sender)
                (p.encode fwd))
              reason)
  unfolding record_validation_reject peer_id_string
  charge_culprit t fwd sender reason = ground arith

  record_reject-at :
      (t : TrustTracker) (pid reason peer : Bytes)
      → at (record_reject t pid reason).invalid peer ≡ (
          let culprit = ite (Bytes-discrete pid []) (bytes "unknown") pid in
          ite (Bytes-discrete culprit peer) ((at t.invalid peer + 1) % u64) (at t.invalid peer))
  unfolding record_reject count_invalid known_peer incr
  record_reject-at t pid reason peer =
      ground (arith, at-put t.invalid (known_peer pid) peer (incr (at t.invalid (known_peer pid))))

  reject-CountsOne :
      (msg : Option Message) (trust : Option TrustTracker) (fwd reason error peer : Bytes)
      → CountsOne trust (reject p c trust fwd (claimed msg) reason error).1 (accused msg fwd) peer
  unfolding record_validation_reject
  reject-CountsOne msg none fwd reason error peer = refl
  reject-CountsOne msg (some t) fwd reason error peer =
      let culprit =
        ite (Bytes-discrete fwd [])
          (ite (Bytes-discrete (claimed msg) []) (bytes "unknown") (claimed msg)) (p.encode fwd) in
      (
        record_reject t culprit reason,
        charge_culprit t fwd (claimed msg) reason,
        ground (arith, record_reject-at t culprit reason peer),
      )

  rejected-CountsOne :
      (msg : Option Message) (trust : Option TrustTracker) (fwd peer : Bytes) (v : Verdict)
      → IsRejection p c msg trust fwd v
      → (error : Bytes) × (v.0 ≡ some error) × CountsOne trust v.1 (accused msg fwd) peer
  rejected-CountsOne msg trust fwd peer v (reason, error, e) = (
    error,
    ap (λ w. w.0) e,
    subst (λ after. CountsOne trust after (accused msg fwd) peer) (sym (ap (λ w. w.1) e))
        (reject-CountsOne msg trust fwd reason error peer),
  )

  -- `ValidateSignedMessage` finds no error and leaves the tracker alone, or it returns an error and the
  -- tracker counts one more invalid packet against one peer and none against any other one: against the
  -- peer that forwarded the message, or where none is known against the sender that the message claims,
  -- `unknown` standing for an empty name. It holds of a nil message too, and the counts wrap at 64 bits.
  pub validate_signed_message_blames :
      (msg : Option Message) (trust : Option TrustTracker) (fwd peer : Bytes)
      → (validate_signed_message p c msg trust fwd ≡ (none, trust))
        ⊎ ((error : Bytes) × ((validate_signed_message p c msg trust fwd).0 ≡ some error)
            × CountsOne trust (validate_signed_message p c msg trust fwd).1 (accused msg fwd) peer)
  unfolding validate_signed_message
  validate_signed_message_blames none trust fwd peer = inr (
      rejected-CountsOne none trust fwd peer (validate_signed_message p c none trust fwd)
        (bytes "nil_message", bytes "nil message", refl))
  validate_signed_message_blames (some msg) trust fwd peer = elim (signed_cases p c msg trust fwd) [
    | inl (good, a) ↦ inl good
    | inr bad ↦ inr (
        rejected-CountsOne (some msg) trust fwd peer
          (validate_signed_message p c (some msg) trust fwd) bad)
  ]

  charged :
      (t : TrustTracker) (fwd sender reason : Bytes)
      → fwd ≢ []
      → record_validation_reject p c (some t) fwd sender reason
        ≡ some (record_reject t (p.encode fwd) reason)
  unfolding record_validation_reject peer_id_string
  charged t fwd sender reason filled = ground arith

  -- A message of a quarantined sender is charged to the peer that forwards it.
  forwarder_charged :
      (t : TrustTracker) (msg : Message) (fwd : Bytes)
      → fwd ≢ []
      → is_quarantined t msg.sender_id ≡ true
      → (reason : Bytes) × ((validate_signed_message p c (some msg) (some t) fwd).1
          ≡ some (record_reject t (p.encode fwd) reason))
  forwarder_charged t msg fwd filled bad = elim (signed_cases p c msg (some t) fwd) [
    | inl (good, a) ↦ let trusted = a.trusted in absurd (ground arith)
    | inr (reason, error, e) ↦ (reason, ap (λ v. v.1) e ∙ charged t fwd msg.sender_id reason filled)
  ]

  -- Quarantine spreads: a peer against which nothing has been counted, and which forwards three
  -- messages whose senders are in quarantine here, is in quarantine itself after the third.
  pub quarantine_spreads :
      (t : TrustTracker) (m1 m2 m3 : Message) (fwd : Bytes)
      → fwd ≢ []
      → p.encode fwd ≢ []
      → at t.invalid (p.encode fwd) ≡ 0
      → is_quarantined t (p.encode fwd) ≡ false
      → is_quarantined t m1.sender_id ≡ true
      → is_quarantined t m2.sender_id ≡ true
      → is_quarantined t m3.sender_id ≡ true
      → quarantined p c
          (validate_signed_message p c
            (some m3)
            (validate_signed_message p c
              (some m2)
              (validate_signed_message p c (some m1) (some t) fwd).1
              fwd).1
            fwd).1
          (p.encode fwd)
        ≡ true
  unfolding run step
  quarantine_spreads t m1 m2 m3 fwd filled named zero out q1 q2 q3 =
      let pid = p.encode fwd in
      let (r1, e1) = forwarder_charged t m1 fwd filled q1 in
      let t1 = record_reject t pid r1 in
      let q2' = run_keeps_quarantine t (rejects pid r1 ∷ []) m2.sender_id q2 in
      let (r2, e2) = forwarder_charged t1 m2 fwd filled q2' in
      let t2 = record_reject t1 pid r2 in
      let q3' = run_keeps_quarantine t (rejects pid r1 ∷ rejects pid r2 ∷ []) m3.sender_id q3 in
      let (r3, e3) = forwarder_charged t2 m3 fwd filled q3' in
      rw (e1, e2, e3) (third_reject_quarantines t pid r1 r2 r3 named zero out).1
