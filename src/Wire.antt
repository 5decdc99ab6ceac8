-- ===== src/Wire.antt =====
-- The packets of internal/p2p/pubsub.go. A message in a list is a pointer that JSON may leave nil.
use distributed_multi_agent.Base.{List, [], map, Bool, Bytes, bytes, Option, some, Result}
use distributed_multi_agent.Types.{Message}

pub record Activity : Type 0 where
  pub kind : Bytes
  pub name : Bytes
  pub action : Bytes
  pub active : Bool

pub record Control : Type 0 where
  pub kind : Bytes
  pub request_id : Bytes
  pub from_peer_id : Bytes
  pub known_ids : List Bytes
  pub messages : List (Option Message)
  pub forwarded_by : Bytes

-- What the code calls of `json.Unmarshal`: the `_kind` of a packet, and the packet at each type.
pub record Decoder : Type 0 where
  pub kind : Bytes → Result Bytes
  pub activity : Bytes → Result Activity
  pub control : Bytes → Result Control
  pub message : Bytes → Result Message

-- What `PublishActivity`, `PublishSyncRequest` and `PublishSyncResponse` publish.
unfoldable pub activity_packet : Bytes → Bytes → Bool → Activity
activity_packet name action active = record {
  kind = bytes "activity";
  name = name;
  action = action;
  active = active;
}

unfoldable pub sync_request_packet : Bytes → Bytes → List Bytes → Control
sync_request_packet request_id from_peer_id known_ids = record {
  kind = bytes "sync_request";
  request_id = request_id;
  from_peer_id = from_peer_id;
  known_ids = known_ids;
  messages = [];
  forwarded_by = [];
}

unfoldable pub sync_response_packet : Bytes → Bytes → List Message → Control
sync_response_packet request_id from_peer_id messages = record {
  kind = bytes "sync_response";
  request_id = request_id;
  from_peer_id = from_peer_id;
  known_ids = [];
  messages = map (λ msg. some msg) messages;
  forwarded_by = [];
}
