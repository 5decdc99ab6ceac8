-- ===== src/Examples/AppRuns.antt =====
-- cmd/main.go: a node that takes one message and sends another.
use distributed_multi_agent.App.Causality.{reply_comes_after, silenced_by_clock}
use distributed_multi_agent.App.{
  App, accept_message, broadcast_diagnostics, refuse, remember_message, show, has_some, add_own,
  ai_message_from_types, compose, merge_clock, note_refusal, or_empty, route, sign_and_publish,
}
use distributed_multi_agent.Base.{
  ◌-◌, ◌+◌, ◌<◌, ◌≡◌, ◌≢◌, refl, [], ◌∷◌, true, false, none, some, arith, at, bytes,
}
use distributed_multi_agent.Chat.{new_ledger, own_clock}
use distributed_multi_agent.Clock.{VectorClock, before, compare, increment, merge, u64}
use distributed_multi_agent.Examples.Sample.{
  alice, ascii, asked, bob, carol, chat, chat_code, validate_code,
}
use distributed_multi_agent.Examples.ValidateRuns.{codec, node, toy}
use distributed_multi_agent.Room.{Room}
use distributed_multi_agent.Types.{Message, hash}
use distributed_multi_agent.Validate.{validate_signed_message}

abbrev blank : VectorClock
blank = record { clock = [] }

abbrev empty_room : Room
empty_room = record {
  self_id = alice;
  messages = [];
  activities = [];
  controls = [];
  rejected = [];
  trust = none;
}

abbrev pub start : App
start = record {
  ready = true;
  browser = [];
  identity = some node;
  peer_id = alice;
  user_name = alice;
  ai_name = bytes "AI";
  has_node = true;
  room = some empty_room;
  vc = some blank;
  prev_hash = [];
  batcher = none;
  orch = none;
  ledger = some (new_ledger 5);
}

-- A message whose clock claims the last counter of `alice`.
abbrev poison : Message
poison = chat (bytes "m9") carol ((carol, 1) ∷ (alice, u64 - 1) ∷ []) []

abbrev taken_state : Message → App
taken_state msg = (accept_message ascii start (some msg) false false 1).0

-- What `alice` sends after it has taken a message.
abbrev reply_to : Message → Message
reply_to msg =
    compose ascii toy codec (taken_state msg) node (increment (merge blank msg.vector_clock) alice)
      (bytes "m2") alice (bytes "hi") false [] false

unfoldable pub app_code : Unit {0}
unfolding chat_code validate_code broadcast_diagnostics refuse remember_message show has_some
    accept_message add_own ai_message_from_types compose merge_clock note_refusal or_empty route
    sign_and_publish hash
app_code = tt

asked_taken : (accept_message ascii start (some asked) false false 1).1.0 ≡ true
unfolding app_code
asked_taken = refl

asked_answered :
    (sign_and_publish ascii toy codec
      (taken_state asked)
      (λ m. true)
      (bytes "m2")
      alice
      (bytes "hi")
      false
      []
      false).1
    ≡ some (reply_to asked)
unfolding app_code
asked_answered = refl

counter_small : at (merge blank asked.vector_clock).clock alice + 1 < u64
unfolding app_code
counter_small = omega arith

poison_taken : (accept_message ascii start (some poison) false false 1).1.0 ≡ true
unfolding app_code
poison_taken = refl

poison_answered :
    (sign_and_publish ascii toy codec
      (taken_state poison)
      (λ m. true)
      (bytes "m2")
      alice
      (bytes "hi")
      false
      []
      false).1
    ≡ some (reply_to poison)
unfolding app_code
poison_answered = refl

blank_small : at blank.clock alice < u64
unfolding app_code
blank_small = omega arith

poisoned : at poison.vector_clock alice ≡ u64 - 1
unfolding app_code
poisoned = refl

reply_comes_after_example : compare asked.vector_clock (reply_to asked).vector_clock ≡ before
reply_comes_after_example =
    reply_comes_after ascii toy codec start blank asked (reply_to asked) false false 1 (λ m. true)
      (bytes "m2") alice (bytes "hi") false [] false refl asked_taken asked_answered counter_small

silenced_by_clock_example :
    (own_clock (reply_to poison) ≡ 0)
    × (validate_signed_message toy codec (some (reply_to poison)) none bob ≢ (none, none))
silenced_by_clock_example =
    silenced_by_clock ascii toy codec start blank poison (reply_to poison) false false 1 (λ m. true)
      (bytes "m2") alice (bytes "hi") false [] false none bob refl poison_taken poison_answered
      blank_small poisoned
