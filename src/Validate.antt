-- ===== src/Validate.antt =====
-- internal/p2p/validate.go: the topic validator. An error is its text, and `none` is nil; the shared
-- trust tracker, a pointer that may be nil, is passed through.
pub mod Signed
pub mod Envelope
pub mod Accepted
pub mod Blame
pub mod EndToEnd
use distributed_multi_agent.Base.{
  ℕ, List, [], ◌∷◌, ◌++◌, Bool, true, false, ◌||◌, ◌&&◌, not, Option, none, some, ite, ltb, ◌==◌,
  if◌then◌else◌, length, Bytes, bytes, Bytes-discrete, at, Result, ok, err, decimal,
}
use distributed_multi_agent.Chat.{own_clock}
use distributed_multi_agent.Crypto.{Libp2p, verify_signature}
use distributed_multi_agent.Trust.{TrustTracker, allow_rate, is_quarantined, record_reject}
use distributed_multi_agent.Types.{Codec, Message, signable_bytes}
use distributed_multi_agent.Wire.{Control, Decoder}

abbrev pub max_app_payload_bytes : ℕ
max_app_payload_bytes = 65_536

-- The error, if any, and the tracker afterwards.
abbrev pub Verdict : Type 0
Verdict = Option Bytes × Option TrustTracker

-- `s == ""`.
abbrev pub is_empty : Bytes → Bool
is_empty s = ite (Bytes-discrete s []) true false

abbrev pub eqb : Bytes → Bytes → Bool
eqb a b = ite (Bytes-discrete a b) true false

module _ (p : Libp2p) (c : Codec) where
  -- `peerIDString` of trust.go.
  unfoldable pub peer_id_string : Bytes → Bytes
  peer_id_string pid = if is_empty pid then bytes "unknown" else p.encode pid

  unfoldable pub record_validation_reject :
      Option TrustTracker → Bytes → Bytes → Bytes → Option TrustTracker
  record_validation_reject none forwarded_by sender_id reason = none
  record_validation_reject (some t) forwarded_by sender_id reason = some (
      record_reject t
        (if not (is_empty forwarded_by)
          then peer_id_string forwarded_by
          else if is_empty sender_id
          then peer_id_string forwarded_by
          else sender_id)
        reason)

  -- A recorded reject with the error that is returned.
  abbrev pub reject : Option TrustTracker → Bytes → Bytes → Bytes → Bytes → Verdict
  reject trust forwarded_by sender_id reason error =
      (some error, record_validation_reject trust forwarded_by sender_id reason)

  abbrev pub quarantined : Option TrustTracker → Bytes → Bool
  quarantined none pid = false
  quarantined (some t) pid = is_quarantined t pid

  -- The end of `ValidateSignedMessage`, from `peer.Decode` on.
  unfoldable pub validate_signature : Message → Option TrustTracker → Bytes → Verdict
  validate_signature msg trust forwarded_by = elim (p.decode msg.sender_id) [
    | err e ↦ reject trust forwarded_by msg.sender_id (bytes "bad_sender_id") e
    | ok sender_pid ↦ elim (signable_bytes c msg) [
      | err e ↦ reject trust forwarded_by msg.sender_id (bytes "signable_bytes_failed") e
      | ok text ↦ elim (verify_signature p sender_pid text msg.signature) [
        | err e ↦ reject trust forwarded_by msg.sender_id (bytes "bad_signature") e
        | ok valid ↦
            if valid
            then (none, trust)
            else reject trust forwarded_by msg.sender_id (bytes "bad_signature")
                (bytes "bad signature")
      ]
    ]
  ]

  unfoldable pub validate_signed_message : Option Message → Option TrustTracker → Bytes → Verdict
  validate_signed_message none trust forwarded_by =
      reject trust forwarded_by [] (bytes "nil_message") (bytes "nil message")
  validate_signed_message (some msg) trust forwarded_by =
      if is_empty msg.id || (is_empty msg.sender_id || is_empty msg.sender_name)
      then reject trust forwarded_by msg.sender_id (bytes "missing_required_fields")
          (bytes "missing required fields")
      else if ltb 8192 (length msg.content)
      then reject trust forwarded_by msg.sender_id (bytes "content_too_large")
          (bytes "content too large")
      else if quarantined trust msg.sender_id
      then reject trust forwarded_by msg.sender_id (bytes "quarantined_peer")
          (bytes "quarantined peer")
      else if own_clock msg == 0
      then reject trust forwarded_by msg.sender_id (bytes "missing_sender_clock")
          (bytes "missing sender vector clock")
      else validate_signature msg trust forwarded_by

  -- `if trust != nil { … if !trust.AllowRate(ratePID, time.Now())`, before the rest of the checks.
  unfoldable pub with_rate :
      Option TrustTracker → Bytes → Bytes → ℕ → (Option TrustTracker → Verdict) → Verdict
  with_rate none forwarded_by claimed clock rest = rest none
  with_rate (some t) forwarded_by claimed clock rest =
      let rate_pid = if not (is_empty forwarded_by) then peer_id_string forwarded_by else claimed in
      let (t', allowed) = allow_rate t rate_pid clock clock in
      if allowed then rest (some t') else (some (bytes "rate_limited"), some t')

  -- The checks that the two sync cases share; `name` and `words` are what their texts differ by.
  unfoldable pub validate_control :
      Bytes → Bytes → Control → Option TrustTracker → Bytes → ℕ → Verdict
  validate_control name words ctrl trust forwarded_by clock =
      if is_empty ctrl.from_peer_id || is_empty ctrl.request_id
      then reject trust forwarded_by ctrl.from_peer_id (bytes "malformed_" ++ name)
          (bytes "malformed " ++ words)
      else if not (is_empty forwarded_by)
          && not (eqb ctrl.from_peer_id (peer_id_string forwarded_by))
      then reject trust forwarded_by ctrl.from_peer_id (bytes "from_peer_mismatch")
          (words ++ bytes " from_peer mismatch")
      else with_rate trust forwarded_by ctrl.from_peer_id clock λ trust'.
        if quarantined trust' ctrl.from_peer_id
        then reject trust' forwarded_by ctrl.from_peer_id (bytes "quarantined_peer")
            (bytes "quarantined peer")
        else (none, trust')

  -- The loop over the messages of a sync response; it stops at the first error.
  unfoldable pub validate_messages : List (Option Message) → Option TrustTracker → Bytes → Verdict
  validate_messages [] trust forwarded_by = (none, trust)
  validate_messages (msg ∷ msgs) trust forwarded_by =
      let (error, trust') = validate_signed_message msg trust forwarded_by in
      let rest = validate_messages msgs trust' forwarded_by in
      elim error [ some e ↦ (some (bytes "invalid sync message: " ++ e), trust') | none ↦ rest ]

  -- A later check that runs only where the earlier ones found no error.
  unfoldable pub and_then : Verdict → (Option TrustTracker → Verdict) → Verdict
  and_then (some e, trust) next = (some e, trust)
  and_then (none, trust) next = next trust

  module _ (d : Decoder) where
    unfoldable pub validate_sync_request : Bytes → Bytes → Option TrustTracker → ℕ → Verdict
    validate_sync_request text forwarded_by trust clock = elim (d.control text) [
      | err e ↦ reject trust forwarded_by [] (bytes "bad_sync_request") e
      | ok ctrl ↦
          validate_control (bytes "sync_request") (bytes "sync request") ctrl trust forwarded_by
            clock
    ]

    unfoldable pub validate_sync_response : Bytes → Bytes → Option TrustTracker → ℕ → Verdict
    validate_sync_response text forwarded_by trust clock = elim (d.control text) [
      | err e ↦ reject trust forwarded_by [] (bytes "bad_sync_response") e
      | ok ctrl ↦
          and_then
            (validate_control (bytes "sync_response") (bytes "sync response") ctrl trust
              forwarded_by clock)
            (λ trust'. validate_messages ctrl.messages trust' forwarded_by)
    ]

    unfoldable pub validate_chat : Bytes → Bytes → Option TrustTracker → ℕ → Verdict
    validate_chat text forwarded_by trust clock = elim (d.message text) [
      | err e ↦ reject trust forwarded_by [] (bytes "bad_chat_message") e
      | ok msg ↦
          with_rate trust forwarded_by msg.sender_id clock
            λ trust'. validate_signed_message (some msg) trust' forwarded_by
    ]

    -- `validateEnvelopeData`; `clock` is what `time.Now()` gives.
    unfoldable pub validate_envelope_data : Bytes → Bytes → Option TrustTracker → ℕ → Verdict
    validate_envelope_data text forwarded_by trust clock =
        if is_empty text
        then reject trust forwarded_by [] (bytes "empty_payload") (bytes "empty payload")
        else if ltb max_app_payload_bytes (length text)
        then reject trust forwarded_by [] (bytes "payload_too_large")
            (bytes "payload too large: " ++ decimal (length text))
        else elim (d.kind text) [
          | err e ↦ reject trust forwarded_by [] (bytes "invalid_json") e
          | ok kind ↦
              if eqb kind (bytes "activity")
              then (none, trust)
              else if eqb kind (bytes "sync_request")
              then validate_sync_request text forwarded_by trust clock
              else if eqb kind (bytes "sync_response")
              then validate_sync_response text forwarded_by trust clock
              else validate_chat text forwarded_by trust clock
        ]
