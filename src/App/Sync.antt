-- ===== src/App/Sync.antt =====
-- cmd/main.go: the repair of a ledger from other nodes. The goroutine of `init` that reads the room's
-- control packets, the one that reads its rejects, and `requestSync`.
use distributed_multi_agent.App.{App, accept_message, broadcast_diagnostics, has_some}
use distributed_multi_agent.Base.{
  ℕ, ◌+◌, List, [], ◌∷◌, ◌++◌, false, not, ◌&&◌, Option, none, some, ltb, if◌then◌else◌, length,
  Bytes, bytes, decimal,
}
use distributed_multi_agent.Chat.Queries.{
  add_repaired, all_ids, mark_rejected, missing_from, set_sync_status,
}
use distributed_multi_agent.Chat.{Ledger}
use distributed_multi_agent.Types.{Message}
use distributed_multi_agent.Unicode.{Unicode}
use distributed_multi_agent.Validate.{eqb, is_empty}
use distributed_multi_agent.Wire.{Control, sync_request_packet, sync_response_packet}

-- The peer that an answer to a sync request is for.
unfoldable pub requester_of : Control → Bytes
requester_of ctrl = if is_empty ctrl.forwarded_by then ctrl.from_peer_id else ctrl.forwarded_by

-- The case of a sync request: the response that is published, if any.
unfoldable pub answer_request : App → Control → Option Control
answer_request s ctrl = elim s.ledger [
  | none ↦ none
  | some l ↦
      if eqb (requester_of ctrl) s.peer_id
      then none
      else (let missing = missing_from l ctrl.known_ids 80 in
          if ltb 0 (length missing)
          then some (sync_response_packet ctrl.request_id s.peer_id missing)
          else none)
]

-- What a function does to a ledger that is there.
unfoldable pub on_ledger : App → (Ledger → Ledger) → App
on_ledger s f = elim s.ledger [ none ↦ s | some l ↦ record s { ledger = some (f l) } ]

-- The status that the repair of `repaired` messages ends with.
unfoldable pub repair_status : ℕ → Bytes
repair_status repaired =
    if ltb 0 repaired then bytes "repaired " ++ decimal repaired else bytes "idle"

-- `requestSync`: the request that is published.
unfoldable pub request_sync : App → Bytes → App × Option Control
request_sync s request_id = elim s.ledger [
  | none ↦ (s, none)
  | some l ↦ if not (s.ready && has_some s.room) then (s, none) else (
    broadcast_diagnostics (on_ledger s λ l'. set_sync_status l' (bytes "requesting")),
    some (sync_request_packet request_id s.peer_id (all_ids l)),
  )
]

-- The goroutine of `requestSync` after its three seconds, if the ledger is still the same.
unfoldable pub request_timeout : App → App
request_timeout s = elim s.ledger [
  | none ↦ s
  | some l ↦
      if eqb l.sync_status (bytes "requesting")
      then broadcast_diagnostics (on_ledger s λ l'. set_sync_status l' (bytes "idle"))
      else s
]

-- One turn of the goroutine that reads `room.Rejected`.
unfoldable pub note_reject : App → App
note_reject s = elim s.ledger [
  | none ↦ s
  | some l ↦ broadcast_diagnostics (on_ledger s mark_rejected)
]

module _ (u : Unicode) where
  -- The loop over the messages of a sync response: the state, and how many messages were taken.
  unfoldable pub repair_all : App → ℕ → ℕ → List (Option Message) → App × ℕ
  repair_all s now repaired [] = (s, repaired)
  repair_all s now repaired (msg ∷ msgs) =
      let (s', (taken, batch)) = accept_message u s msg false false now in
      repair_all s' now (if taken then repaired + 1 else repaired) msgs

  -- The case of a sync response.
  unfoldable pub take_response : App → ℕ → Control → App
  take_response s now ctrl = elim s.ledger [
    | none ↦ s
    | some l ↦
        let (s', repaired) =
          repair_all (on_ledger s λ l'. set_sync_status l' (bytes "repairing")) now 0
            ctrl.messages in
        broadcast_diagnostics
          (on_ledger s' λ l'. set_sync_status (add_repaired l' repaired) (repair_status repaired))
  ]

  -- One turn of the goroutine that reads `room.Controls`.
  unfoldable pub handle_control : App → ℕ → Control → App × Option Control
  handle_control s now ctrl =
      if eqb ctrl.kind (bytes "sync_request")
      then (s, answer_request s ctrl)
      else if eqb ctrl.kind (bytes "sync_response")
      then (take_response s now ctrl, none)
      else (s, none)
