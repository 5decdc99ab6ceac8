-- ===== src/Examples/RoomRuns.antt =====
-- The read loop of internal/p2p/pubsub.go on a small packet.
use distributed_multi_agent.Base.{◌≡◌, refl, [], ◌∷◌, some, bytes}
use distributed_multi_agent.Examples.Sample.{bob, carol, validate_code}
use distributed_multi_agent.Examples.ValidateRuns.{
  codec, fresh, packet, reads, response_passes, toy,
}
use distributed_multi_agent.Room.Nil.{receive_response_some}
use distributed_multi_agent.Room.{
  Room, offer, peek, receive, receive_control, record_rejected, verify_all, verify_message,
  verify_one,
}

abbrev room : Room
room = record {
  self_id = carol;
  messages = [];
  activities = [];
  controls = [];
  rejected = [];
  trust = fresh;
}

-- The packet arrives whole, with the peer that forwarded it.
received :
    receive toy codec (reads (bytes "sync_response")) room bob (bytes "{}")
    ≡ some (record room { controls = record packet { forwarded_by = bob } ∷ [] })
unfolding validate_code receive peek receive_control verify_all verify_one verify_message
    record_rejected offer
received = refl

receive_response_some_example :
    (cr' : Room) × (receive toy codec (reads (bytes "sync_response")) room bob (bytes "{}")
      ≡ some cr')
receive_response_some_example =
    receive_response_some toy codec (reads (bytes "sync_response")) (bytes "{}") bob bob fresh 9
      packet room refl refl response_passes
