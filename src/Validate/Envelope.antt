-- ===== src/Validate/Envelope.antt =====
-- `validateEnvelopeData` of internal/p2p/validate.go: what an accepted packet guarantees.
use distributed_multi_agent.Base.{
  ℕ, ◌≡◌, ◌≢◌, refl, ap, sym, ◌∙◌, inl, inr, List, [], ◌∷◌, true, false, Option, none, some, arith,
  if◌then◌else◌, ◌||◌, ◌&&◌, not, All, Bytes, bytes, Bool-cases,
}
use distributed_multi_agent.Crypto.{Libp2p}
use distributed_multi_agent.Trust.{TrustTracker, allow_rate}
use distributed_multi_agent.Types.{Codec, Message}
use distributed_multi_agent.Validate.Signed.{IsAcceptable, signed_cases}
use distributed_multi_agent.Validate.{
  Verdict, and_then, eqb, is_empty, peer_id_string, quarantined, reject, validate_control,
  validate_messages, validate_signed_message, with_rate,
}
use distributed_multi_agent.Wire.{Control}

-- A message pointer that is not nil and whose message is acceptable.
abbrev pub IsGood : Libp2p → Codec → Option TrustTracker → Option Message → Type 0
IsGood p c trust m = (msg : Message) × (m ≡ some msg) × IsAcceptable p c trust msg

-- A control packet that names its request and comes from the peer that it names.
pub record IsBound (p : Libp2p) (fwd : Bytes) (ctrl : Control) : Type 0 where
  pub requested : ctrl.request_id ≢ []
  pub from : ctrl.from_peer_id ≢ []
  pub bound : fwd ≢ [] → ctrl.from_peer_id ≡ p.encode fwd

module _ (p : Libp2p) (c : Codec) where
  pub with_rate-none :
      (trust : Option TrustTracker) (fwd pid : Bytes) (clock : ℕ)
      (rest : Option TrustTracker → Verdict)
      → (with_rate p c trust fwd pid clock rest).0 ≡ none
      → (trust' : Option TrustTracker) × (with_rate p c trust fwd pid clock rest ≡ rest trust')
  unfolding with_rate
  with_rate-none none fwd pid clock rest h = (none, refl)
  with_rate-none (some t) fwd pid clock rest h =
      let rate_pid = if not (is_empty fwd) then peer_id_string p c fwd else pid in
      (some (allow_rate t rate_pid clock clock).0, ground arith)

  -- The last check of a control packet.
  abbrev final : Control → Bytes → Option TrustTracker → Verdict
  final ctrl fwd trust' =
      if quarantined p c trust' ctrl.from_peer_id
      then reject p c trust' fwd ctrl.from_peer_id (bytes "quarantined_peer")
          (bytes "quarantined peer")
      else (none, trust')

  control_empty :
      (name words : Bytes) (ctrl : Control) (trust : Option TrustTracker) (fwd : Bytes) (clock : ℕ)
      → (is_empty ctrl.from_peer_id || is_empty ctrl.request_id) ≡ true
      → (validate_control p c name words ctrl trust fwd clock).0 ≡ none
      → ⊥
  unfolding validate_control
  control_empty name words ctrl trust fwd clock e h = ground arith

  control_spoofed :
      (name words : Bytes) (ctrl : Control) (trust : Option TrustTracker) (fwd : Bytes) (clock : ℕ)
      → (is_empty ctrl.from_peer_id || is_empty ctrl.request_id) ≡ false
      → (not (is_empty fwd) && not (eqb ctrl.from_peer_id (peer_id_string p c fwd))) ≡ true
      → (validate_control p c name words ctrl trust fwd clock).0 ≡ none
      → ⊥
  unfolding validate_control
  control_spoofed name words ctrl trust fwd clock full e h = ground arith

  final_sound :
      (ctrl : Control) (fwd : Bytes) (trust' : Option TrustTracker)
      → (final ctrl fwd trust').0 ≡ none
      → (quarantined p c trust' ctrl.from_peer_id ≡ false)
        × (final ctrl fwd trust' ≡ (none, trust'))
  final_sound ctrl fwd trust' h = elim (Bool-cases (quarantined p c trust' ctrl.from_peer_id)) [
    | inl q ↦ absurd (ground arith)
    | inr q ↦ (q, rw q)
  ]

  control_final :
      (name words : Bytes) (ctrl : Control) (trust : Option TrustTracker) (fwd : Bytes) (clock : ℕ)
      → (is_empty ctrl.from_peer_id || is_empty ctrl.request_id) ≡ false
      → (not (is_empty fwd) && not (eqb ctrl.from_peer_id (peer_id_string p c fwd))) ≡ false
      → validate_control p c name words ctrl trust fwd clock
        ≡ with_rate p c trust fwd ctrl.from_peer_id clock (final ctrl fwd)
  unfolding validate_control
  control_final name words ctrl trust fwd clock full bound = rw (full, bound)

  -- The checks of the packet itself, once they have passed, bind it to its forwarder.
  IsBound-sound :
      (ctrl : Control) (fwd : Bytes)
      → (is_empty ctrl.from_peer_id || is_empty ctrl.request_id) ≡ false
      → (not (is_empty fwd) && not (eqb ctrl.from_peer_id (peer_id_string p c fwd))) ≡ false
      → IsBound p fwd ctrl
  unfolding peer_id_string
  IsBound-sound ctrl fwd full bound = record {
    requested = ground arith;
    from = ground arith;
    bound = λ filled. ground arith;
  }

  pub control_sound :
      (name words : Bytes) (ctrl : Control) (trust : Option TrustTracker) (fwd : Bytes) (clock : ℕ)
      → (validate_control p c name words ctrl trust fwd clock).0 ≡ none
      → IsBound p fwd ctrl
        × (quarantined p c
              (validate_control p c name words ctrl trust fwd clock).1
              ctrl.from_peer_id
            ≡ false)
  control_sound name words ctrl trust fwd clock h =
      elim (Bool-cases (is_empty ctrl.from_peer_id || is_empty ctrl.request_id)) [
        | inl e ↦ absurd (control_empty name words ctrl trust fwd clock e h)
        | inr full ↦
            elim (Bool-cases
              (not (is_empty fwd) && not (eqb ctrl.from_peer_id (peer_id_string p c fwd)))) [
                | inl e ↦ absurd (control_spoofed name words ctrl trust fwd clock full e h)
                | inr bound ↦
                    let same = control_final name words ctrl trust fwd clock full bound in
                    let (trust', e) =
                      with_rate-none trust fwd ctrl.from_peer_id clock (final ctrl fwd)
                        (sym (ap (λ v. v.0) same) ∙ h) in
                    let (q, last) =
                      final_sound ctrl fwd trust' (sym (ap (λ v. v.0) (same ∙ e)) ∙ h) in
                    (
                      IsBound-sound ctrl fwd full bound,
                      ap (λ v. quarantined p c v.1 ctrl.from_peer_id) (same ∙ e ∙ last) ∙ q,
                    )
              ]
      ]

  messages_good :
      (m : Option Message) (msgs : List (Option Message)) (trust : Option TrustTracker)
      (fwd : Bytes)
      → validate_signed_message p c m trust fwd ≡ (none, trust)
      → validate_messages p c (m ∷ msgs) trust fwd ≡ validate_messages p c msgs trust fwd
  unfolding validate_messages
  messages_good m msgs trust fwd good =
      rw (good, validate_messages) (ap (λ v. validate_messages p c msgs v.1 fwd) good)

  messages_bad :
      (m : Option Message) (msgs : List (Option Message)) (trust t : Option TrustTracker)
      (fwd e : Bytes)
      → validate_signed_message p c m trust fwd ≡ (some e, t)
      → (validate_messages p c (m ∷ msgs) trust fwd).0 ≡ none
      → ⊥
  unfolding validate_messages
  messages_bad m msgs trust t fwd e bad h = ground arith

  pub messages_sound :
      (msgs : List (Option Message)) (trust : Option TrustTracker) (fwd : Bytes)
      → (validate_messages p c msgs trust fwd).0 ≡ none
      → All (IsGood p c trust) msgs × ((validate_messages p c msgs trust fwd).1 ≡ trust)
  unfolding validate_messages validate_signed_message
  messages_sound [] trust fwd h = (tt, refl)
  messages_sound (none ∷ msgs) trust fwd h =
      absurd (messages_bad none msgs trust _ fwd (bytes "nil message") refl h)
  messages_sound (some msg ∷ msgs) trust fwd h = elim (signed_cases p c msg trust fwd) [
    | inl (good, a) ↦
        let same = messages_good (some msg) msgs trust fwd good in
        let (rest, kept) = messages_sound msgs trust fwd (sym (ap (λ v. v.0) same) ∙ h) in
        (((msg, refl, a), rest), ap (λ v. v.1) same ∙ kept)
    | inr (reason, error, bad) ↦ absurd (messages_bad (some msg) msgs trust _ fwd error bad h)
  ]

  with_rate_sound :
      (trust : Option TrustTracker) (fwd pid : Bytes) (clock : ℕ)
      (rest : Option TrustTracker → Verdict) (kept : Option TrustTracker)
      → with_rate p c trust fwd pid clock rest ≡ (none, kept)
      → (trust' : Option TrustTracker) × (rest trust' ≡ (none, kept))
  with_rate_sound trust fwd pid clock rest kept h =
      let (trust', e) = with_rate-none trust fwd pid clock rest (ap (λ v. v.0) h) in
      (trust', sym e ∙ h)

  pub and_then_sound :
      (v : Verdict) (next : Option TrustTracker → Verdict)
      → (and_then p c v next).0 ≡ none
      → (v.0 ≡ none) × (and_then p c v next ≡ next v.1)
  unfolding and_then
  and_then_sound (some e, trust) next h = absurd (ground arith)
  and_then_sound (none, trust) next h = (refl, refl)
