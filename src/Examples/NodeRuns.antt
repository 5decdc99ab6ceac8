-- ===== src/Examples/NodeRuns.antt =====
-- cmd/main.go and internal/p2p/node.go: a node that repairs its ledger, and one that demonstrates an
-- attack.
use distributed_multi_agent.App.Demo.{
  demo_clock, demo_silences, signed_demo_message, with_signature,
}
use distributed_multi_agent.App.Live.{control, live, live-IsSound, received, rejected, requested}
use distributed_multi_agent.App.Repair.{take_response_counts}
use distributed_multi_agent.App.Shown.{chats, shown_if_taken}
use distributed_multi_agent.App.Sound.{IsSound}
use distributed_multi_agent.App.Sync.{
  answer_request, handle_control, note_reject, on_ledger, repair_all, repair_status, request_sync,
  request_timeout, requester_of, take_response,
}
use distributed_multi_agent.App.{App, accept_message}
use distributed_multi_agent.Base.{
  ℕ, ◌+◌, ◌%◌, ◌<◌, ◌≤◌, ◌≡◌, refl, List, [], ◌∷◌, true, false, none, some, arith, if◌then◌else◌,
  ◌++◌, has, put, bytes, ok, err, ◌++◌,
}
use distributed_multi_agent.Chat.History.{after, after_all, takes}
use distributed_multi_agent.Chat.Invariant.{new_ledger-IsValid}
use distributed_multi_agent.Chat.Queries.{all_ids, recent, set_sync_status, mark_rejected}
use distributed_multi_agent.Chat.{Ledger, new_ledger, own_clock}
use distributed_multi_agent.Clock.{u64}
use distributed_multi_agent.Examples.AppRuns.{app_code, start}
use distributed_multi_agent.Examples.Sample.{alice, ascii, asked, bob, carol, chat}
use distributed_multi_agent.Examples.ValidateRuns.{codec, toy}
use distributed_multi_agent.Node.Peers.{dialled, found, is_target, known_peers, run}
use distributed_multi_agent.Node.{Dialer, new_node}
use distributed_multi_agent.Types.{Message}
use distributed_multi_agent.Validate.{eqb}
use distributed_multi_agent.Wire.{Control, sync_request_packet, sync_response_packet}

-- All that a run of the sync handlers computes with.
unfoldable sync_code : Unit {0}
unfolding app_code answer_request handle_control note_reject on_ledger repair_all repair_status
    request_sync request_timeout requester_of take_response sync_request_packet sync_response_packet
    set_sync_status mark_rejected signed_demo_message with_signature demo_clock
sync_code = tt

start-IsSound : IsSound start
unfolding sync_code
start-IsSound = new_ledger-IsValid 5

-- A response with a message and a nil pointer.
abbrev response : Control
response = record (sync_response_packet (bytes "r1") bob (asked ∷ [])) {
  messages = some asked ∷ none ∷ some asked ∷ [];
}

live-IsSound_example : IsSound (
    live ascii toy codec start (
      control 3 response
      ∷ rejected
      ∷ received (some asked) false true 4
      ∷ requested (bytes "r2")
      ∷ []))
live-IsSound_example =
    live-IsSound ascii toy codec start
      (control 3 response
        ∷ rejected
        ∷ received (some asked) false true 4
        ∷ requested (bytes "r2")
        ∷ [])
      start-IsSound

take_response_counts_example :
    (n : ℕ) × (l' : Ledger) × ((take_response ascii start 3 response).ledger ≡ some l')
    × (l'.verified % u64 ≡ ((new_ledger 5).verified + n) % u64)
    × (l'.repaired % u64 ≡ ((new_ledger 5).repaired + n) % u64)
    × (l'.sync_status ≡ repair_status n)
take_response_counts_example = take_response_counts ascii start (new_ledger 5) 3 response refl

-- A node that holds one message, and the request of one that holds none.
abbrev holder : App
holder = (accept_message ascii start (some asked) false false 1).0

abbrev held : Ledger
held = after ascii (new_ledger 5) asked

abbrev request : Control
request = record (sync_request_packet (bytes "r1") bob (all_ids (new_ledger 9))) {
  forwarded_by = bob;
}

abbrev answer : Control
answer = sync_response_packet (bytes "r1") alice (recent held 80)

shown_if_taken_example :
    chats (accept_message ascii start (some asked) false true 2).0.browser
    ≡ chats start.browser
      + (if (accept_message ascii start (some asked) false true 2).1.0 then 1 else 0)
shown_if_taken_example = shown_if_taken ascii start (some asked) false true 2

-- The demonstration of a clock that goes back, with the counter 900.
abbrev prime : Message
prime = record (chat (bytes "d1") alice ((alice, 900) ∷ []) []) {
  sender_name = bytes "ClockDemo";
  signature = bytes "02";
}

-- What the node says afterwards.
abbrev later : Message
later = chat (bytes "d2") alice ((alice, 2) ∷ []) []

prime_made :
    (signed_demo_message toy codec start
      (bytes "d1")
      (bytes "ClockDemo")
      (bytes "hi")
      (some (put [] alice 900))).1
    ≡ ok prime
unfolding sync_code
prime_made = refl

prime_taken : takes ascii (new_ledger 5) prime ≡ true
unfolding sync_code
prime_taken = refl

later_own : 0 < own_clock later
unfolding sync_code
later_own = omega arith

later_small : own_clock later ≤ 900
unfolding sync_code
later_small = omega arith

demo_silences_example :
    takes ascii (after_all ascii (after ascii (new_ledger 5) prime) (asked ∷ [])) later ≡ false
demo_silences_example =
    demo_silences toy codec ascii start (bytes "d1") (bytes "ClockDemo") (bytes "hi") 900 prime
      (new_ledger 5) (asked ∷ []) later prime_made prime_taken refl later_own later_small

-- Every address is the peer ID that it leads to, and only `bob` answers.
abbrev dialer : Dialer
dialer = record {
  new_multiaddr = λ raw. ok raw;
  addr_info = λ addr. ok addr;
  connect = λ id. if eqb id bob then ok tt else err (bytes "timeout");
}

known_peers_example :
    has (run dialer (new_node alice) (found alice ∷ dialled carol ∷ dialled bob ∷ [])).peers bob
    ≡ is_target dialer alice bob (found alice ∷ dialled carol ∷ dialled bob ∷ [])
known_peers_example = known_peers dialer alice (found alice ∷ dialled carol ∷ dialled bob ∷ []) bob
