-- ===== src/Trace/Verdicts.antt =====
-- internal/p2p/pubsub.go: what the trace of a packet says against what the validator did.
use distributed_multi_agent.Base.{
  ◌≡◌, ◌≢◌, refl, sym, ap, ◌∙◌, ◌↔◌, ◌⊎◌, inl, inr, List, [], ◌∷◌, ◌++◌, true, false, ◌||◌, Option,
  none, some, arith, Bytes, bytes, All, In, In-append_right, ok, Bool-cases, Result-cases,
  has_prefix,
}
use distributed_multi_agent.Crypto.{Libp2p}
use distributed_multi_agent.Trace.{
  SecurityTraceEvent, append_trace_verdict, build_security_trace, check_step, or_zero, hash_step,
  start_trace, trace_bad_chat, trace_chat, trace_control, verify_step,
}
use distributed_multi_agent.Types.{Codec, Message, signable_bytes}
use distributed_multi_agent.Unicode.{Unicode}
use distributed_multi_agent.Validate.{eqb}
use distributed_multi_agent.Wire.{Control, Decoder}

-- The step by which a trace says that the packet went no further.
abbrev pub dropped_step : Bytes
dropped_step = bytes "[RESULT] not inserted into ledger / UI / AI history"

true_not_false : true ≢ false
true_not_false h = cc

-- Texts differ if a prefix tells them apart.
pub differs : (t s part : Bytes) → has_prefix part t ≡ true → has_prefix part s ≡ false → t ≢ s
differs t s part yes_t no_s e = true_not_false (sym yes_t ∙ ap (λ x. has_prefix part x) e ∙ no_s)

-- No step of the list is `s`.
abbrev pub Lacks : Bytes → List Bytes → Type 0
Lacks s = All (λ t. t ≢ s)

pub Lacks-append : (s : Bytes) (xs ys : List Bytes) → Lacks s xs → Lacks s ys → Lacks s (xs ++ ys)
Lacks-append s [] ys a b = b
Lacks-append s (x ∷ xs) ys (n, a) b = (n, Lacks-append s xs ys a b)

pub Lacks-not_In : (s : Bytes) (xs : List Bytes) → Lacks s xs → ¬ In s xs
Lacks-not_In s [] a h = h
Lacks-not_In s (x ∷ xs) (n, a) (inl e) = n e
Lacks-not_In s (x ∷ xs) (n, a) (inr h) = Lacks-not_In s xs a h

dropped_trace :
    (trace : SecurityTraceEvent)
    → trace.verdict ≡ bytes "drop"
    → In dropped_step (append_trace_verdict trace).steps
unfolding append_trace_verdict
dropped_trace trace drop = elim (Bool-cases (eqb trace.verdict (bytes "drop"))) [
  | inl e ↦
      rw (e, append_trace_verdict) (In-append_right dropped_step trace.steps _ (inr (inl refl)))
  | inr e ↦ absurd (ground arith)
]

accepted_trace :
    (trace : SecurityTraceEvent)
    → trace.verdict ≡ bytes "accept"
    → Lacks dropped_step trace.steps
    → Lacks dropped_step (append_trace_verdict trace).steps
unfolding append_trace_verdict has_prefix
accepted_trace trace accept lacks = elim (Bool-cases (eqb trace.verdict (bytes "drop"))) [
  | inl e ↦ absurd (ground arith)
  | inr e ↦
      rw (e, append_trace_verdict)
        (Lacks-append dropped_step trace.steps _ lacks
          (differs _ dropped_step (bytes "[RESULT] v") refl refl, tt))
]

module _ (u : Unicode) (p : Libp2p) (c : Codec) (d : Decoder) where
  check_step-Lacks : (trace : SecurityTraceEvent) → Lacks dropped_step (check_step u p c d trace)
  unfolding check_step has_prefix
  check_step-Lacks trace = elim (Bool-cases (eqb trace.reason (bytes "missing_sender_clock"))) [
    | inl e ↦ rw (e, check_step) (differs _ dropped_step (bytes "[C") refl refl, tt)
    | inr e ↦ elim (Bool-cases (eqb trace.reason (bytes "bad_signature"))) [
      | inl e' ↦ rw (e, e', check_step) (differs _ dropped_step (bytes "[V") refl refl, tt)
      | inr e' ↦ elim (Bool-cases (eqb trace.verdict (bytes "accept"))) [
        | inl a ↦ rw (e, e', a, check_step) (differs _ dropped_step (bytes "[V") refl refl, tt)
        | inr a ↦ rw (e, e', a, check_step) tt
      ]
    ]
  ]

  pub hash_step_prefix : (msg : Message) → has_prefix (bytes "[H") (hash_step u p c d msg) ≡ true
  unfolding hash_step has_prefix
  hash_step_prefix msg = elim (Result-cases (signable_bytes c msg)) [
    | inl (text, h) ↦ rw (h, hash_step) refl
    | inr (e', h) ↦ rw (h, hash_step) refl
  ]

  pub verify_step-Lacks :
      (s kind : Bytes) (ctrl : Control)
      → has_prefix (bytes "[V") s ≡ false
      → Lacks s (verify_step u p c d kind ctrl)
  unfolding verify_step has_prefix
  verify_step-Lacks s kind ctrl none_there = elim (Bool-cases (eqb kind (bytes "sync_response"))) [
    | inl e ↦ rw (e, verify_step) (differs _ s (bytes "[V") refl none_there, tt)
    | inr e ↦ rw (e, verify_step) tt
  ]

  accepted_control :
      (text from kind : Bytes) (ctrl : Control)
      → Lacks dropped_step
          (trace_control u p c d (start_trace u p c d text from none) from kind ctrl).steps
  unfolding trace_control start_trace has_prefix
  accepted_control text from kind ctrl = accepted_trace _ refl (
    differs _ dropped_step (bytes "[REC") refl refl,
    (
      differs _ dropped_step (bytes "[P") refl refl,
      (
        differs _ dropped_step (bytes "[B") refl refl,
        verify_step-Lacks dropped_step kind ctrl refl,
      ),
    ),
  )

  accepted_bad_chat :
      (text from : Bytes)
      → Lacks dropped_step (trace_bad_chat u p c d (start_trace u p c d text from none)).steps
  unfolding trace_bad_chat start_trace has_prefix
  accepted_bad_chat text from = accepted_trace _ refl (
    differs _ dropped_step (bytes "[REC") refl refl,
    (differs _ dropped_step (bytes "[P") refl refl, tt),
  )

  accepted_chat_trace :
      (text from : Bytes) (msg : Message)
      → Lacks dropped_step (trace_chat u p c d (start_trace u p c d text from none) msg).steps
  unfolding trace_chat start_trace has_prefix
  accepted_chat_trace text from msg = accepted_trace _ refl (
    differs _ dropped_step (bytes "[REC") refl refl,
    (
      differs _ dropped_step (bytes "[P") refl refl,
      (
        differs _ dropped_step (bytes "[F") refl refl,
        (
          differs _ dropped_step (bytes "[H") (hash_step_prefix msg) refl,
          check_step-Lacks (start_trace u p c d text from none),
        ),
      ),
    ),
  )

  -- The kinds of trace of a packet that JSON can read, and that is no activity packet.
  pub trace_cases :
      (text from kind : Bytes) (error : Option Bytes)
      → d.kind text ≡ ok kind
      → kind ≢ bytes "activity"
      → (build_security_trace u p c d text from error
          ≡ trace_control u p c d
              (start_trace u p c d text from error)
              from
              kind
              (or_zero (d.control text)))
        ⊎ (build_security_trace u p c d text from error
            ≡ trace_bad_chat u p c d (start_trace u p c d text from error))
        ⊎ ((msg : Message) × (build_security_trace u p c d text from error
              ≡ trace_chat u p c d (start_trace u p c d text from error) msg))
  unfolding build_security_trace
  trace_cases text from kind error named other =
      elim (Bool-cases (eqb kind (bytes "sync_request") || eqb kind (bytes "sync_response"))) [
        | inl e ↦ inl (ground arith)
        | inr e ↦ elim (Result-cases (d.message text)) [
          | inl (msg, m) ↦ inr (inr (msg, ground arith))
          | inr (e', m) ↦ inr (inl (ground arith))
        ]
      ]

  dropped_traced :
      (text from kind e : Bytes)
      → d.kind text ≡ ok kind
      → kind ≢ bytes "activity"
      → In dropped_step (build_security_trace u p c d text from (some e)).steps
  unfolding start_trace trace_control trace_bad_chat trace_chat
  dropped_traced text from kind e named other =
      elim (trace_cases text from kind (some e) named other) [
        | inl control ↦ rw control (dropped_trace _ refl)
        | inr (inl bad) ↦ rw bad (dropped_trace _ refl)
        | inr (inr (msg, chat)) ↦ rw chat (dropped_trace _ refl)
      ]

  accepted_traced :
      (text from kind : Bytes)
      → d.kind text ≡ ok kind
      → kind ≢ bytes "activity"
      → Lacks dropped_step (build_security_trace u p c d text from none).steps
  accepted_traced text from kind named other = elim (trace_cases text from kind none named other) [
    | inl control ↦ rw control (accepted_control text from kind (or_zero (d.control text)))
    | inr (inl bad) ↦ rw bad (accepted_bad_chat text from)
    | inr (inr (msg, chat)) ↦ rw chat (accepted_chat_trace text from msg)
  ]

  -- The trace of a packet whose kind can be read and is not `activity` says that the packet was not
  -- inserted exactly if the validator gave an error.
  pub trace_tells :
      (text from kind : Bytes) (error : Option Bytes)
      → d.kind text ≡ ok kind
      → kind ≢ bytes "activity"
      → In dropped_step (build_security_trace u p c d text from error).steps ↔ (error ≢ none)
  trace_tells text from kind none named other = (
    λ h. absurd (Lacks-not_In dropped_step _ (accepted_traced text from kind named other) h),
    λ h. absurd (h refl),
  )
  trace_tells text from kind (some e) named other =
      (λ h e'. ground arith, λ h. dropped_traced text from kind e named other)
