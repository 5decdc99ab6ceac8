-- ===== src/Validate/Signed.antt =====
-- `ValidateSignedMessage` of internal/p2p/validate.go: what it accepts, whom it blames, and that what
-- a node signs passes.
use distributed_multi_agent.Base.{
  ◌≤◌, ◌<◌, ◌≡◌, ◌≢◌, ◌↔◌, ◌⊎◌, inl, inr, [], Bool, true, false, Option, none, some, arith, ltb,
  ◌||◌, ◌==◌, length, Bytes, bytes, ok, Result-cases, Bool-cases,
}
use distributed_multi_agent.Chat.{own_clock}
use distributed_multi_agent.Crypto.{Libp2p, verify_signature}
use distributed_multi_agent.Trust.{TrustTracker}
use distributed_multi_agent.Types.{Codec, Message, signable_bytes}
use distributed_multi_agent.Validate.{
  Verdict, is_empty, quarantined, reject, validate_signature, validate_signed_message,
}

-- The sender ID decodes to a peer whose key made the signature over the message's signable bytes.
pub record IsSigned (p : Libp2p) (c : Codec) (msg : Message) : Type 0 where
  pub peer : Bytes
  pub text : Bytes
  pub decoded : p.decode msg.sender_id ≡ ok peer
  pub marshalled : signable_bytes c msg ≡ ok text
  pub verified : verify_signature p peer text msg.signature ≡ ok true

pub record IsAcceptable (p : Libp2p) (c : Codec) (trust : Option TrustTracker) (msg : Message)
    : Type 0 where
  pub named : msg.id ≢ []
  pub from : msg.sender_id ≢ []
  pub sender_named : msg.sender_name ≢ []
  pub short : length msg.content ≤ 8192
  pub trusted : quarantined p c trust msg.sender_id ≡ false
  pub clocked : 0 < own_clock msg
  pub signed : IsSigned p c msg

-- The ID that a rejected message claims for its sender; a nil message claims none.
abbrev pub claimed : Option Message → Bytes
claimed none = []
claimed (some msg) = msg.sender_id

module _ (p : Libp2p) (c : Codec) where
  -- A verdict with an error, and one reject on the record.
  abbrev pub IsRejection : Option Message → Option TrustTracker → Bytes → Verdict → Type 0
  IsRejection msg trust fwd v =
      (reason : Bytes) × (error : Bytes) × (v ≡ reject p c trust fwd (claimed msg) reason error)

  signature_cases :
      (msg : Message) (trust : Option TrustTracker) (fwd : Bytes)
      → ((validate_signature p c msg trust fwd ≡ (none, trust)) × IsSigned p c msg)
        ⊎ IsRejection (some msg) trust fwd (validate_signature p c msg trust fwd)
  unfolding validate_signature
  signature_cases msg trust fwd = elim (Result-cases (p.decode msg.sender_id)) [
    | inr (e, bad) ↦ inr (bytes "bad_sender_id", e, rw (bad, validate_signature))
    | inl (pid, decoded) ↦ elim (Result-cases (signable_bytes c msg)) [
      | inr (e, bad) ↦ inr (bytes "signable_bytes_failed", e, rw (decoded, bad, validate_signature))
      | inl (text, marshalled) ↦ elim (Result-cases (verify_signature p pid text msg.signature)) [
        | inr (e, bad) ↦
            inr (bytes "bad_signature", e, rw (decoded, marshalled, bad, validate_signature))
        | inl (true, good) ↦ inl (
          rw (decoded, marshalled, good, validate_signature),
          record {
            peer = pid;
            text = text;
            decoded = decoded;
            marshalled = marshalled;
            verified = good;
          },
        )
        | inl (false, bad) ↦ inr (
          bytes "bad_signature",
          bytes "bad signature",
          rw (decoded, marshalled, bad, validate_signature),
        )
      ]
    ]
  ]

  signature_complete :
      (msg : Message) (trust : Option TrustTracker) (fwd : Bytes)
      → IsSigned p c msg
      → validate_signature p c msg trust fwd ≡ (none, trust)
  unfolding validate_signature
  signature_complete msg trust fwd s = ground arith

  -- The checks that need no key.
  fields_missing : Message → Bool
  fields_missing msg = is_empty msg.id || (is_empty msg.sender_id || is_empty msg.sender_name)

  -- `ValidateSignedMessage` either finds no error and leaves the tracker alone, or it returns one
  -- error and records one reject, against the forwarding peer, or else against the claimed sender.
  pub signed_cases :
      (msg : Message) (trust : Option TrustTracker) (fwd : Bytes)
      → ((validate_signed_message p c (some msg) trust fwd ≡ (none, trust))
          × IsAcceptable p c trust msg)
        ⊎ IsRejection (some msg) trust fwd (validate_signed_message p c (some msg) trust fwd)
  unfolding validate_signed_message fields_missing
  signed_cases msg trust fwd = elim (Bool-cases (fields_missing msg)) [
    | inl e ↦ inr (bytes "missing_required_fields", bytes "missing required fields", rw e)
    | inr full ↦ elim (Bool-cases (ltb 8192 (length msg.content))) [
      | inl e ↦ inr (bytes "content_too_large", bytes "content too large", rw (full, e))
      | inr short ↦ elim (Bool-cases (quarantined p c trust msg.sender_id)) [
        | inl e ↦ inr (bytes "quarantined_peer", bytes "quarantined peer", rw (full, short, e))
        | inr trusted ↦ elim (Bool-cases (own_clock msg == 0)) [
          | inl e ↦ inr (
            bytes "missing_sender_clock",
            bytes "missing sender vector clock",
            rw (full, short, trusted, e),
          )
          | inr clocked ↦
              rw (full, short, trusted, clocked)
                (elim (signature_cases msg trust fwd) [
                  | inl (good, s) ↦ inl (
                    good,
                    record {
                      named = ground arith;
                      from = ground arith;
                      sender_named = ground arith;
                      short = ground arith;
                      trusted = trusted;
                      clocked = ground arith;
                      signed = s;
                    },
                  )
                  | inr bad ↦ inr bad
                ])
        ]
      ]
    ]
  ]

  pub signed_complete :
      (msg : Message) (trust : Option TrustTracker) (fwd : Bytes)
      → IsAcceptable p c trust msg
      → validate_signed_message p c (some msg) trust fwd ≡ (none, trust)
  unfolding validate_signed_message
  signed_complete msg trust fwd a = ground (
    arith,
    a.named,
    a.from,
    a.sender_named,
    a.short,
    a.trusted,
    a.clocked,
    signature_complete msg trust fwd a.signed,
  )

  -- `ValidateSignedMessage` finds no error in a message and leaves the tracker alone exactly if its ID, sender ID and sender name
  -- are not empty, its content is at most 8192 bytes long, its sender is not in quarantine and has a
  -- counter of its own in the vector clock, and its signature is one by the key of the sender ID over
  -- the signable bytes.
  pub validate_signed_message_iff :
      (msg : Message) (trust : Option TrustTracker) (fwd : Bytes)
      → (validate_signed_message p c (some msg) trust fwd ≡ (none, trust))
        ↔ IsAcceptable p c trust msg
  validate_signed_message_iff msg trust fwd = elim (signed_cases msg trust fwd) [
    | inl (good, a) ↦ (λ h. a, λ b. good)
    | inr (reason, error, bad) ↦ (λ h. absurd (ground arith), λ b. signed_complete msg trust fwd b)
  ]
