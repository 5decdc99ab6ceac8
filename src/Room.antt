-- ===== src/Room.antt =====
-- The read loop of internal/p2p/pubsub.go: what a room does with one packet that the validator let
-- through. A channel is the list of what it holds; a send that would block drops its value.
pub mod Nil
use distributed_multi_agent.Base.{
  ℕ, List, [], ◌∷◌, ◌++◌, Bool, true, false, ◌||◌, Option, none, some, ite, ltb, if◌then◌else◌,
  length, Bytes, bytes, Result, ok, err,
}
use distributed_multi_agent.Crypto.{Libp2p}
use distributed_multi_agent.Trust.{TrustTracker}
use distributed_multi_agent.Types.{Codec, Message}
use distributed_multi_agent.Validate.{eqb, validate_signed_message}
use distributed_multi_agent.Wire.{Activity, Control, Decoder}

-- `RejectEvent` of trust.go.
pub record RejectEvent : Type 0 where
  pub peer_id : Bytes
  pub reason : Bytes

pub record Room : Type 0 where
  pub self_id : Bytes
  pub messages : List Message
  pub activities : List Activity
  pub controls : List Control
  pub rejected : List RejectEvent
  pub trust : Option TrustTracker

-- The capacities of the four channels that `JoinChatRoom` makes.
abbrev pub messages_cap : ℕ
messages_cap = 128

abbrev pub activities_cap : ℕ
activities_cap = 256

abbrev pub controls_cap : ℕ
controls_cap = 32

abbrev pub rejected_cap : ℕ
rejected_cap = 32

-- `select { case ch <- x: default: }`.
unfoldable pub offer : {A : Type 0} → ℕ → List A → A → List A
offer cap ch x = if ltb (length ch) cap then ch ++ (x ∷ []) else ch

unfoldable pub record_rejected : Room → Bytes → Bytes → Room
record_rejected cr peer_id reason = record cr {
  rejected = offer rejected_cap cr.rejected (record { peer_id = peer_id; reason = reason });
}

module _ (p : Libp2p) (c : Codec) where
  unfoldable pub verify_message : Room → Option Message → Room × Bool
  verify_message cr msg =
      let (error, trust) = validate_signed_message p c msg cr.trust [] in
      (record cr { trust = trust }, elim error [ none ↦ true | some e ↦ false ])

  -- One message of a sync response: the room and the verified messages so far; `none` is the panic
  -- of `msg.SenderID` on a nil pointer.
  unfoldable pub verify_one :
      Room → List (Option Message) → Option Message → Option (Room × List (Option Message))
  verify_one cr verified msg =
      let (cr', valid) = verify_message cr msg in
      if valid then some (cr', verified ++ (msg ∷ [])) else elim msg [
        | none ↦ none
        | some m ↦ some (record_rejected cr' m.sender_id (bytes "bad_sync_message"), verified)
      ]

  -- The loop over the messages of a sync response.
  unfoldable pub verify_all :
      List (Option Message) → Room → List (Option Message) → Option (Room × List (Option Message))
  verify_all [] cr verified = some (cr, verified)
  verify_all (msg ∷ msgs) cr verified = elim (verify_one cr verified msg) [
    | none ↦ none
    | some (cr', verified') ↦ verify_all msgs cr' verified'
  ]

  unfoldable pub receive_control : Room → Control → Bytes → Option Room
  receive_control cr ctrl received_from =
      if eqb ctrl.from_peer_id cr.self_id
      then some cr
      else if eqb ctrl.kind (bytes "sync_response")
      then elim (verify_all ctrl.messages cr []) [
        | none ↦ none
        | some (cr', verified) ↦ some (record cr' {
          controls =
              offer controls_cap cr'.controls
                (record ctrl { forwarded_by = received_from; messages = verified });
        })
      ]
      else some (record cr {
        controls = offer controls_cap cr.controls (record ctrl { forwarded_by = received_from });
      })

  unfoldable pub receive_chat : Room → Message → Room
  receive_chat cr msg =
      let (cr', valid) = verify_message cr (some msg) in
      if valid
      then record cr' { messages = offer messages_cap cr'.messages msg }
      else record_rejected cr' msg.sender_id (bytes "bad_chat_message")

  -- The kind that an ignored error leaves empty.
  unfoldable pub peek : Result Bytes → Bytes
  peek (ok kind) = kind
  peek (err e) = []

  -- One turn of `readLoop`, for a packet that came; `none` is a panic.
  unfoldable pub receive : Decoder → Room → Bytes → Bytes → Option Room
  receive d cr received_from text =
      let kind = peek (d.kind text) in
      if eqb (p.encode received_from) cr.self_id
      then some cr
      else if eqb kind (bytes "activity")
      then elim (d.activity text) [
        | err e ↦ some cr
        | ok act ↦ some (record cr { activities = offer activities_cap cr.activities act })
      ]
      else if eqb kind (bytes "sync_request") || eqb kind (bytes "sync_response")
      then elim (d.control text) [
        | err e ↦ some cr
        | ok ctrl ↦ receive_control cr ctrl (p.encode received_from)
      ]
      else elim (d.message text) [ err e ↦ some cr | ok msg ↦ some (receive_chat cr msg) ]
