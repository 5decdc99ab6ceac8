-- ===== src/Trace.antt =====
-- The security traces of internal/p2p/pubsub.go: the account of one packet that the validator gives,
-- for the trace panel of the browser.
pub mod Reasons
pub mod Verdicts
pub mod Gaps
use distributed_multi_agent.Base.{
  ℕ, List, [], ◌∷◌, ◌++◌, Bool, true, false, ◌||◌, Option, none, some, ite, ltb, leb, if◌then◌else◌,
  length, take, Bytes, bytes, Bytes-discrete, GoMap, keys, at, Result, ok, err, decimal, hex_encode,
  contains, replace_all,
}
use distributed_multi_agent.Crypto.{Libp2p}
use distributed_multi_agent.Room.{offer}
use distributed_multi_agent.Trace.Reasons.{
  short_id, short_hash, truncate, clock_summary, normalize_reject_reason,
}
use distributed_multi_agent.Trust.{TrustTracker, short_peer_id}
use distributed_multi_agent.Types.{Codec, Message, signable_bytes}
use distributed_multi_agent.Unicode.{Unicode}
use distributed_multi_agent.Validate.{eqb, is_empty, peer_id_string, validate_envelope_data}
use distributed_multi_agent.Wire.{Control, Decoder}

pub record SecurityTraceEvent : Type 0 where
  pub from_peer : Bytes
  pub kind : Bytes
  pub verdict : Bytes
  pub reason : Bytes
  pub packet_summary : Bytes
  pub steps : List Bytes

-- `append(trace.Steps, …)`.
abbrev pub with_steps : SecurityTraceEvent → List Bytes → SecurityTraceEvent
with_steps trace steps = record trace { steps = trace.steps ++ steps }

unfoldable pub append_trace_verdict : SecurityTraceEvent → SecurityTraceEvent
append_trace_verdict trace =
    if eqb trace.verdict (bytes "drop")
    then with_steps trace (
        (bytes "[DROP] reason = " ++ trace.reason)
        ∷ bytes "[RESULT] not inserted into ledger / UI / AI history"
        ∷ [])
    else with_steps trace
        (bytes "[RESULT] validator accepted packet for application processing" ∷ [])

-- `emitSecurityTrace`; the channel is what it holds, and takes 128 traces.
abbrev pub trace_cap : ℕ
trace_cap = 128

unfoldable pub emit_security_trace :
    List SecurityTraceEvent → SecurityTraceEvent → List SecurityTraceEvent
emit_security_trace ch trace = elim trace.steps [ [] ↦ ch | s ∷ ss ↦ offer trace_cap ch trace ]

abbrev pub zero_control : Control
zero_control = record {
  kind = [];
  request_id = [];
  from_peer_id = [];
  known_ids = [];
  messages = [];
  forwarded_by = [];
}

-- What `_ = json.Unmarshal(…)` leaves in a packet: the zero packet where there is an error.
unfoldable pub or_zero : Result Control → Control
or_zero (ok ctrl) = ctrl
or_zero (err e) = zero_control

module _ (u : Unicode) (p : Libp2p) (c : Codec) (d : Decoder) where
  -- The trace before the packet is looked into.
  unfoldable pub start_trace : Bytes → Bytes → Option Bytes → SecurityTraceEvent
  start_trace text from validation_err = record {
    from_peer = short_peer_id (peer_id_string p c from);
    kind = [];
    verdict = elim validation_err [ none ↦ bytes "accept" | some e ↦ bytes "drop" ];
    reason = normalize_reject_reason validation_err;
    packet_summary = [];
    steps =
        (bytes "[RECV] packet from "
          ++ (short_peer_id (peer_id_string p c from)
              ++ (bytes " (" ++ (decimal (length text) ++ bytes " bytes)"))))
        ∷ [];
  }

  -- The case of a payload that is not JSON.
  unfoldable pub trace_malformed : SecurityTraceEvent → SecurityTraceEvent
  trace_malformed trace =
      with_steps
        (record trace { kind = bytes "malformed"; packet_summary = bytes "invalid JSON payload" })
        (bytes "[PARSE] JSON decoding failed"
          ∷ (bytes "[DROP] reason = " ++ trace.reason)
          ∷ bytes "[RESULT] not inserted into ledger / UI / AI history"
          ∷ [])

  unfoldable pub trace_activity : SecurityTraceEvent → SecurityTraceEvent
  trace_activity trace =
      with_steps (record trace { kind = bytes "activity"; packet_summary = bytes "activity event" })
        (bytes "[PARSE] decoded as activity event"
          ∷ bytes "[RESULT] accepted as lightweight presence event"
          ∷ [])

  -- The step that only a sync response has.
  unfoldable pub verify_step : Bytes → Control → List Bytes
  verify_step kind ctrl =
      if eqb kind (bytes "sync_response")
      then (bytes "[VERIFY] re-validating "
          ++ (decimal (length ctrl.messages) ++ bytes " signed message(s) inside sync response"))
        ∷ []
      else []

  unfoldable pub trace_control : SecurityTraceEvent → Bytes → Bytes → Control → SecurityTraceEvent
  trace_control trace from kind ctrl = append_trace_verdict (
      with_steps
        (record trace {
          kind = kind;
          packet_summary =
              kind
              ++ (bytes " request_id="
                  ++ (short_id ctrl.request_id
                      ++ (bytes " from_peer_id="
                          ++ (short_peer_id ctrl.from_peer_id
                              ++ (bytes " messages=" ++ decimal (length ctrl.messages))))));
        })
        ((bytes "[PARSE] decoded as " ++ (kind ++ bytes " control message"))
          ∷ (bytes "[BIND] from_peer_id="
              ++ (short_peer_id ctrl.from_peer_id
                  ++ (bytes ", forwarding peer=" ++ short_peer_id (peer_id_string p c from))))
          ∷ verify_step kind ctrl))

  unfoldable pub trace_bad_chat : SecurityTraceEvent → SecurityTraceEvent
  trace_bad_chat trace = append_trace_verdict (
      with_steps
        (record trace {
          kind = bytes "bad_chat_message";
          packet_summary = bytes "malformed chat message";
        })
        (bytes "[PARSE] chat JSON shape invalid" ∷ []))

  unfoldable pub hash_step : Message → Bytes
  hash_step msg = elim (signable_bytes c msg) [
    | ok signable ↦
        bytes "[HASH] signable payload SHA-256 = " ++ take 16 (hex_encode (c.sha256 signable))
    | err e ↦ bytes "[HASH] failed to build signable payload: " ++ e
  ]

  abbrev pub clock_step : Bytes
  clock_step = bytes "[CLOCK] sender's own vector-clock entry is missing or zero"

  -- The step that says why the packet was dropped, or that its signature is good.
  unfoldable pub check_step : SecurityTraceEvent → List Bytes
  check_step trace =
      if eqb trace.reason (bytes "missing_sender_clock")
      then clock_step ∷ []
      else if eqb trace.reason (bytes "bad_signature")
      then bytes "[VERIFY] Ed25519 signature check failed against modified signable payload" ∷ []
      else if eqb trace.verdict (bytes "accept")
      then bytes "[VERIFY] Ed25519 signature matches sender_id public key" ∷ []
      else []

  unfoldable pub trace_chat : SecurityTraceEvent → Message → SecurityTraceEvent
  trace_chat trace msg = append_trace_verdict (
      with_steps
        (record trace {
          kind = bytes "chat";
          packet_summary =
              bytes "chat sender="
              ++ (short_peer_id msg.sender_id
                  ++ (bytes " name="
                      ++ (msg.sender_name
                          ++ (bytes " content="
                              ++ (u.quote (truncate msg.content 70)
                                  ++ (bytes " clock="
                                      ++ clock_summary msg.vector_clock msg.sender_id))))));
        })
        (bytes "[PARSE] decoded as chat message"
          ∷ (bytes "[FIELDS] id="
              ++ (short_id msg.id
                  ++ (bytes " sender_id="
                      ++ (short_peer_id msg.sender_id
                          ++ (bytes " prev_hash=" ++ short_hash msg.prev_hash)))))
          ∷ hash_step msg
          ∷ check_step trace))

  unfoldable pub build_security_trace : Bytes → Bytes → Option Bytes → SecurityTraceEvent
  build_security_trace text from validation_err =
      let trace = start_trace text from validation_err in
      elim (d.kind text) [
        | err e ↦ trace_malformed trace
        | ok kind ↦
            if eqb kind (bytes "activity")
            then trace_activity trace
            else if eqb kind (bytes "sync_request") || eqb kind (bytes "sync_response")
            then trace_control trace from kind (or_zero (d.control text))
            else elim (d.message text) [
              | err e ↦ trace_bad_chat trace
              | ok msg ↦ trace_chat trace msg
            ]
      ]

  -- The topic validator that `JoinChatRoom` registers: whether it accepts, the tracker, and the
  -- channel of traces.
  unfoldable pub topic_validator :
      Bytes
      → Bytes
      → Option TrustTracker
      → ℕ
      → List SecurityTraceEvent
      → Bool × Option TrustTracker × List SecurityTraceEvent
  topic_validator text from trust clock ch =
      let (error, trust') = validate_envelope_data p c d text from trust clock in
      let trace = build_security_trace text from error in
      elim error [
        | some e ↦ (false, trust', emit_security_trace ch trace)
        | none ↦ (
          true,
          trust',
          if eqb trace.kind (bytes "activity") then ch else emit_security_trace ch trace,
        )
      ]
