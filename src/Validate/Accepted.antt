-- ===== src/Validate/Accepted.antt =====
-- `validateEnvelopeData` of internal/p2p/validate.go: what an accepted packet of each kind guarantees.
use distributed_multi_agent.Base.{
  ℕ, ◌≤◌, ◌≡◌, ◌≢◌, ap, sym, subst, ◌∙◌, inl, inr, [], Option, none, some, arith, All, Bytes, bytes,
  ok, Result-cases, false, length,
}
use distributed_multi_agent.Crypto.{Libp2p}
use distributed_multi_agent.Trust.{TrustTracker}
use distributed_multi_agent.Types.{Codec, Message}
use distributed_multi_agent.Validate.Envelope.{
  IsBound, IsGood, and_then_sound, control_sound, messages_sound, with_rate-none,
}
use distributed_multi_agent.Validate.Signed.{IsAcceptable, signed_cases}
use distributed_multi_agent.Validate.{
  Verdict, max_app_payload_bytes, quarantined, validate_chat, validate_control,
  validate_envelope_data, validate_messages, validate_signed_message, validate_sync_request,
  validate_sync_response, with_rate, and_then,
}
use distributed_multi_agent.Wire.{Control, Decoder}

-- The peer that a packet names is not in quarantine for the tracker that the validation left.
abbrev pub IsTrusted : Libp2p → Codec → Option TrustTracker → Bytes → Type 0
IsTrusted p c trust pid = quarantined p c trust pid ≡ false

module _ (p : Libp2p) (c : Codec) (d : Decoder) where
  pub record IsReadable (text kind : Bytes) : Type 0 where
    pub filled : text ≢ []
    pub small : length text ≤ max_app_payload_bytes
    pub named : d.kind text ≡ ok kind

  -- An accepted packet is not empty, is at most 65536 bytes long, and its `_kind` can be read.
  pub accepted-IsReadable :
      (text fwd : Bytes) (trust : Option TrustTracker) (clock : ℕ)
      → (validate_envelope_data p c d text fwd trust clock).0 ≡ none
      → (kind : Bytes) × IsReadable text kind
  unfolding validate_envelope_data
  accepted-IsReadable text fwd trust clock h = elim (Result-cases (d.kind text)) [
    | inl (kind, named) ↦
        (kind, record { filled = ground arith; small = ground arith; named = named })
    | inr (e, named) ↦ absurd (ground arith)
  ]

  request_checks :
      (text fwd : Bytes) (trust : Option TrustTracker) (clock : ℕ) (ctrl : Control)
      → d.kind text ≡ ok (bytes "sync_request")
      → d.control text ≡ ok ctrl
      → (validate_envelope_data p c d text fwd trust clock).0 ≡ none
      → validate_envelope_data p c d text fwd trust clock
        ≡ validate_control p c (bytes "sync_request") (bytes "sync request") ctrl trust fwd clock
  unfolding validate_envelope_data validate_sync_request
  request_checks text fwd trust clock ctrl kind decoded h = ground arith

  response_checks :
      (text fwd : Bytes) (trust : Option TrustTracker) (clock : ℕ) (ctrl : Control)
      → d.kind text ≡ ok (bytes "sync_response")
      → d.control text ≡ ok ctrl
      → (validate_envelope_data p c d text fwd trust clock).0 ≡ none
      → validate_envelope_data p c d text fwd trust clock
        ≡ and_then p c
            (validate_control p c
              (bytes "sync_response")
              (bytes "sync response")
              ctrl
              trust
              fwd
              clock)
            (λ trust'. validate_messages p c ctrl.messages trust' fwd)
  unfolding validate_envelope_data validate_sync_response
  response_checks text fwd trust clock ctrl kind decoded h = ground arith

  chat_checks :
      (text fwd kind : Bytes) (trust : Option TrustTracker) (clock : ℕ) (msg : Message)
      → d.kind text ≡ ok kind
      → kind ≢ bytes "activity"
      → kind ≢ bytes "sync_request"
      → kind ≢ bytes "sync_response"
      → d.message text ≡ ok msg
      → (validate_envelope_data p c d text fwd trust clock).0 ≡ none
      → validate_envelope_data p c d text fwd trust clock
        ≡ with_rate p c trust fwd msg.sender_id clock
            (λ trust'. validate_signed_message p c (some msg) trust' fwd)
  unfolding validate_envelope_data validate_chat
  chat_checks text fwd kind trust clock msg named a r s decoded h = ground arith

  -- An accepted sync request names its request, comes from the peer that it names, and that peer is
  -- not in quarantine.
  pub accepted_request :
      (text fwd : Bytes) (trust : Option TrustTracker) (clock : ℕ) (ctrl : Control)
      → d.kind text ≡ ok (bytes "sync_request")
      → d.control text ≡ ok ctrl
      → (validate_envelope_data p c d text fwd trust clock).0 ≡ none
      → IsBound p fwd ctrl
        × IsTrusted p c (validate_envelope_data p c d text fwd trust clock).1 ctrl.from_peer_id
  accepted_request text fwd trust clock ctrl kind decoded h =
      let same = request_checks text fwd trust clock ctrl kind decoded h in
      let (bound, trusted) =
        control_sound p c (bytes "sync_request") (bytes "sync request") ctrl trust fwd clock
          (sym (ap (λ v. v.0) same) ∙ h) in
      (bound, ap (λ v. quarantined p c v.1 ctrl.from_peer_id) same ∙ trusted)

  -- An accepted sync response names its request and comes from the peer that it names, and each of its
  -- messages is there, is complete, at most 8192 bytes long, signed by its sender, carries the sender's
  -- clock, and is from a sender that is not in quarantine.
  pub accepted_response :
      (text fwd : Bytes) (trust : Option TrustTracker) (clock : ℕ) (ctrl : Control)
      → d.kind text ≡ ok (bytes "sync_response")
      → d.control text ≡ ok ctrl
      → (validate_envelope_data p c d text fwd trust clock).0 ≡ none
      → IsBound p fwd ctrl
        × All (IsGood p c (validate_envelope_data p c d text fwd trust clock).1) ctrl.messages
  accepted_response text fwd trust clock ctrl kind decoded h =
      let same = response_checks text fwd trust clock ctrl kind decoded h in
      let checked =
        validate_control p c (bytes "sync_response") (bytes "sync response") ctrl trust fwd clock in
      let (passed, next) =
        and_then_sound p c checked (λ trust'. validate_messages p c ctrl.messages trust' fwd)
          (sym (ap (λ v. v.0) same) ∙ h) in
      let (bound, trusted) =
        control_sound p c (bytes "sync_response") (bytes "sync response") ctrl trust fwd clock
          passed in
      let (good, kept) =
        messages_sound p c ctrl.messages checked.1 fwd (sym (ap (λ v. v.0) (same ∙ next)) ∙ h) in
      (
        bound,
        subst (λ t. All (IsGood p c t) ctrl.messages) (sym (ap (λ v. v.1) (same ∙ next) ∙ kept))
            good,
      )

  -- An accepted packet of any other kind but `activity` holds a chat message that is complete, at most
  -- 8192 bytes long, signed by its sender, carries the sender's clock, and is from a sender that is not
  -- in quarantine.
  pub accepted_chat :
      (text fwd kind : Bytes) (trust : Option TrustTracker) (clock : ℕ) (msg : Message)
      → d.kind text ≡ ok kind
      → kind ≢ bytes "activity"
      → kind ≢ bytes "sync_request"
      → kind ≢ bytes "sync_response"
      → d.message text ≡ ok msg
      → (validate_envelope_data p c d text fwd trust clock).0 ≡ none
      → IsAcceptable p c (validate_envelope_data p c d text fwd trust clock).1 msg
  accepted_chat text fwd kind trust clock msg named a r s decoded h =
      let same = chat_checks text fwd kind trust clock msg named a r s decoded h in
      let rest : Option TrustTracker → Verdict =
        λ trust'. validate_signed_message p c (some msg) trust' fwd in
      let (trust', next) =
        with_rate-none p c trust fwd msg.sender_id clock rest (sym (ap (λ v. v.0) same) ∙ h) in
      elim (signed_cases p c msg trust' fwd) [
        | inl (good, acceptable) ↦
            subst (λ v. IsAcceptable p c v.1 msg) (sym (same ∙ next ∙ good)) acceptable
        | inr (reason, error, bad) ↦
            let no : some error ≡ none = sym (ap (λ v. v.0) (same ∙ next ∙ bad)) ∙ h in
            absurd (ground arith)
      ]
