-- ===== src/Trace/Gaps.antt =====
-- internal/p2p/pubsub.go: two places where the trace of a packet does not tell what the validator
-- found.
use distributed_multi_agent.Base.{
  ℕ, ◌≤◌, ◌<◌, ◌≡◌, ◌≢◌, refl, inl, inr, [], false, Option, none, some, arith, length, Bytes, bytes,
  Bytes-discrete, ℕ_discrete, In, ok, Bool-cases, contains, replace_all, replace_from, has_prefix,
}
use distributed_multi_agent.Chat.{own_clock}
use distributed_multi_agent.Crypto.{Libp2p}
use distributed_multi_agent.Trace.Verdicts.{
  Lacks, Lacks-append, Lacks-not_In, verify_step-Lacks, differs, hash_step_prefix, trace_cases,
}
use distributed_multi_agent.Trace.{
  SecurityTraceEvent, append_trace_verdict, build_security_trace, check_step, clock_step,
  start_trace, trace_activity, trace_bad_chat, trace_chat, trace_control,
}
use distributed_multi_agent.Trace.Reasons.{find_reason, normalize_reject_reason, truncate}
use distributed_multi_agent.Trust.{TrustTracker}
use distributed_multi_agent.Types.{Codec, Message}
use distributed_multi_agent.Unicode.{Unicode}
use distributed_multi_agent.Validate.{
  eqb, max_app_payload_bytes, quarantined, validate_envelope_data, validate_signed_message,
}
use distributed_multi_agent.Wire.{Decoder}

-- The error of `ValidateSignedMessage` for a message without its sender's counter.
abbrev pub missing_clock : Bytes
missing_clock = bytes "missing sender vector clock"

reason_kept : normalize_reject_reason (some missing_clock) ≡ missing_clock
unfolding normalize_reject_reason find_reason contains has_prefix replace_all replace_from truncate
reason_kept = refl

dropped_trace-Lacks :
    (s : Bytes) (trace : SecurityTraceEvent)
    → trace.verdict ≡ bytes "drop"
    → has_prefix (bytes "[D") s ≡ false
    → has_prefix (bytes "[R") s ≡ false
    → Lacks s trace.steps
    → Lacks s (append_trace_verdict trace).steps
unfolding append_trace_verdict has_prefix
dropped_trace-Lacks s trace drop no_d no_r lacks =
    elim (Bool-cases (eqb trace.verdict (bytes "drop"))) [
      | inl e ↦
          rw (e, append_trace_verdict)
            (Lacks-append s trace.steps _ lacks
              (differs _ s (bytes "[D") refl no_d, (differs _ s (bytes "[R") refl no_r, tt)))
      | inr e ↦ absurd (ground arith)
    ]

module _ (u : Unicode) (p : Libp2p) (c : Codec) (d : Decoder) where
  check_step_empty :
      (text from : Bytes)
      → check_step u p c d (start_trace u p c d text from (some missing_clock)) ≡ []
  unfolding check_step start_trace Bytes-discrete ℕ_discrete
  check_step_empty text from = rw reason_kept refl

  clock_step-Lacks :
      (text from kind : Bytes)
      → d.kind text ≡ ok kind
      → kind ≢ bytes "activity"
      → Lacks
          (clock_step u p c d)
          (build_security_trace u p c d text from (some missing_clock)).steps
  unfolding start_trace trace_control trace_bad_chat trace_chat has_prefix
  clock_step-Lacks text from kind named other =
      let step = clock_step u p c d in
      elim (trace_cases u p c d text from kind (some missing_clock) named other) [
        | inl control ↦ rw control (
            dropped_trace-Lacks step _ refl refl refl (
              differs _ step (bytes "[REC") refl refl,
              (
                differs _ step (bytes "[P") refl refl,
                (differs _ step (bytes "[B") refl refl, verify_step-Lacks u p c d step kind _ refl),
              ),
            ))
        | inr (inl bad) ↦ rw bad (
            dropped_trace-Lacks step _ refl refl refl (
              differs _ step (bytes "[REC") refl refl,
              (differs _ step (bytes "[P") refl refl, tt),
            ))
        | inr (inr (msg, chat)) ↦ rw chat (
            dropped_trace-Lacks step _ refl refl refl (
              differs _ step (bytes "[REC") refl refl,
              (
                differs _ step (bytes "[P") refl refl,
                (
                  differs _ step (bytes "[F") refl refl,
                  (
                    differs _ step (bytes "[H") (hash_step_prefix u p c d msg) refl,
                    rw (check_step_empty text from) tt,
                  ),
                ),
              ),
            ))
      ]

  -- A message without its sender's counter is refused, and no trace of its packet has the step that
  -- `buildSecurityTrace` keeps for that refusal: the error's text is not the reason that it looks for.
  pub clock_step_absent :
      (msg : Message) (trust : Option TrustTracker) (fwd text from kind : Bytes)
      → msg.id ≢ []
      → msg.sender_id ≢ []
      → msg.sender_name ≢ []
      → length msg.content ≤ 8192
      → quarantined p c trust msg.sender_id ≡ false
      → own_clock msg ≡ 0
      → d.kind text ≡ ok kind
      → kind ≢ bytes "activity"
      → ((validate_signed_message p c (some msg) trust fwd).0 ≢ none)
        × (¬ In
            (clock_step u p c d)
            (build_security_trace u p c d text from
              (validate_signed_message p c (some msg) trust fwd).0).steps)
  unfolding validate_signed_message
  clock_step_absent msg trust fwd text from kind i f n short out zero named other =
      let error : (validate_signed_message p c (some msg) trust fwd).0 ≡ some missing_clock =
        ground arith in
      rw error (
        (λ h. ground arith),
        Lacks-not_In (clock_step u p c d) _ (clock_step-Lacks text from kind named other),
      )

  -- The step that a trace of an activity packet ends with.
  abbrev pub presence_step : Bytes
  presence_step = bytes "[RESULT] accepted as lightweight presence event"

  presence_step_given :
      (text from : Bytes) (error : Option Bytes)
      → d.kind text ≡ ok (bytes "activity")
      → In presence_step (build_security_trace u p c d text from error).steps
  unfolding build_security_trace trace_activity start_trace Bytes-discrete ℕ_discrete
  presence_step_given text from error kind = rw (kind, build_security_trace) (inr (inr (inl refl)))

  -- An activity packet of more than 65536 bytes is refused, and its trace says that it was accepted.
  pub presence_step_wrong :
      (text from fwd : Bytes) (trust : Option TrustTracker) (clock : ℕ)
      → d.kind text ≡ ok (bytes "activity")
      → max_app_payload_bytes < length text
      → ((validate_envelope_data p c d text fwd trust clock).0 ≢ none)
        × In presence_step
            (build_security_trace u p c d text from
              (validate_envelope_data p c d text fwd trust clock).0).steps
  unfolding validate_envelope_data
  presence_step_wrong text from fwd trust clock kind large =
      (λ h. ground arith, presence_step_given text from _ kind)
