-- ===== src/Room/Nil.antt =====
-- The read loop of internal/p2p/pubsub.go does not fall over a nil message.
use distributed_multi_agent.Base.{
  ℕ, ◌≡◌, refl, List, [], ◌∷◌, Option, none, some, arith, All, Bytes, bytes, ok, Bool-cases, inl,
  inr, Option-cases,
}
use distributed_multi_agent.Crypto.{Libp2p}
use distributed_multi_agent.Room.{Room, peek, receive, receive_control, verify_all, verify_one}
use distributed_multi_agent.Trust.{TrustTracker}
use distributed_multi_agent.Types.{Codec, Message}
use distributed_multi_agent.Validate.Accepted.{accepted_response}
use distributed_multi_agent.Validate.Envelope.{IsGood}
use distributed_multi_agent.Validate.{eqb, validate_envelope_data}
use distributed_multi_agent.Wire.{Control, Decoder}

module _ (p : Libp2p) (c : Codec) where
  verify_one-some :
      (cr : Room) (verified : List (Option Message)) (m : Message)
      → (r : Room × List (Option Message)) × (verify_one p c cr verified (some m) ≡ some r)
  unfolding verify_one
  verify_one-some cr verified m = elim (Option-cases (verify_one p c cr verified (some m))) [
    | inr r ↦ r
    | inl e ↦ absurd (ground arith)
  ]

  verify_all-some :
      (trust : Option TrustTracker) (msgs : List (Option Message)) (cr : Room)
      (verified : List (Option Message))
      → All (IsGood p c trust) msgs
      → (r : Room × List (Option Message)) × (verify_all p c msgs cr verified ≡ some r)
  unfolding verify_all
  verify_all-some trust [] cr verified good = ((cr, verified), refl)
  verify_all-some trust (none ∷ msgs) cr verified ((m, e, a), good) = absurd (ground arith)
  verify_all-some trust (some m ∷ msgs) cr verified (here, good) =
      let ((cr', verified'), e) = verify_one-some cr verified m in
      let (r, rest) = verify_all-some trust msgs cr' verified' good in (r, rw (e, verify_all) rest)

  receive_control-some :
      (trust : Option TrustTracker) (cr : Room) (ctrl : Control) (received_from : Bytes)
      → All (IsGood p c trust) ctrl.messages
      → (cr' : Room) × (receive_control p c cr ctrl received_from ≡ some cr')
  unfolding receive_control
  receive_control-some trust cr ctrl received_from good =
      let ((cr', verified), e) = verify_all-some trust ctrl.messages cr [] good in
      elim (Option-cases (receive_control p c cr ctrl received_from)) [
        | inr r ↦ r
        | inl e' ↦ absurd (ground (arith, e))
      ]

  -- A sync response that the validator accepts never makes the read loop panic on a nil message,
  -- whatever the room and its tracker hold by then.
  pub receive_response_some :
      (d : Decoder) (text fwd received_from : Bytes) (trust : Option TrustTracker) (clock : ℕ)
      (ctrl : Control) (cr : Room)
      → d.kind text ≡ ok (bytes "sync_response")
      → d.control text ≡ ok ctrl
      → (validate_envelope_data p c d text fwd trust clock).0 ≡ none
      → (cr' : Room) × (receive p c d cr received_from text ≡ some cr')
  unfolding receive peek
  receive_response_some d text fwd received_from trust clock ctrl cr kind decoded accepted =
      let (bound, good) = accepted_response p c d text fwd trust clock ctrl kind decoded accepted in
      let (cr', e) =
        receive_control-some (validate_envelope_data p c d text fwd trust clock).1 cr ctrl
          (p.encode received_from) good in
      elim (Bool-cases (eqb (p.encode received_from) cr.self_id)) [
        | inl own ↦ (cr, ground arith)
        | inr other ↦ (cr', ground (arith, e))
      ]
