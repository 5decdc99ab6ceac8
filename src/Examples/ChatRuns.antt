-- ===== src/Examples/ChatRuns.antt =====
-- internal/chat/ledger.go on small ledgers.
use distributed_multi_agent.Base.{
  ◌≡◌, ◌≢◌, refl, ◌↔◌, [], ◌∷◌, true, false, some, arith, bytes, same,
}
use distributed_multi_agent.Chat.Admission.{IsAdmissible, add_with_reason_iff}
use distributed_multi_agent.Chat.History.{after, after_all, fork_refused, regression_refused, takes}
use distributed_multi_agent.Chat.Invariant.{
  IsValid, add_with_reason-IsValid, message_ids, new_ledger-IsValid,
}
use distributed_multi_agent.Chat.Order.{comes_before_cycle}
use distributed_multi_agent.Chat.{
  Ledger, add_with_reason, comes_before, compare_messages, new_ledger,
}
use distributed_multi_agent.Examples.Sample.{
  chat_code, answered, ascii, asked, carol, chat, early, unrelated,
}
use distributed_multi_agent.Types.{Message}

abbrev empty : Ledger
empty = new_ledger 2

-- The ledgers after the question, and after the unrelated message too.
abbrev one : Ledger
one = after ascii empty asked

abbrev two : Ledger
two = after ascii one unrelated

-- The same text from the same sender once more, and a message of `carol` from before.
abbrev late : Message
late = chat (bytes "m0") carol early []

abbrev chained : Message
chained = chat (bytes "m4") carol ((carol, 2) ∷ []) (bytes "h1")

abbrev fork : Message
fork = chat (bytes "m5") carol ((carol, 3) ∷ []) (bytes "h1")

-- Two nodes that take the same three messages in another order show them in another order: a
-- reply stands before the question on one of them.
order_of_arrival :
    message_ids (after_all ascii (new_ledger 9) (asked ∷ unrelated ∷ answered ∷ [])).messages
    ≡ bytes "m3" ∷ bytes "m1" ∷ bytes "m2" ∷ []
unfolding chat_code after_all
order_of_arrival = refl

order_of_arrival_late :
    message_ids (after_all ascii (new_ledger 9) (answered ∷ unrelated ∷ asked ∷ [])).messages
    ≡ bytes "m2" ∷ bytes "m3" ∷ bytes "m1" ∷ []
unfolding chat_code after_all
order_of_arrival_late = refl

evicted : message_ids (after ascii two answered).messages ≡ bytes "m1" ∷ bytes "m2" ∷ []
unfolding chat_code
evicted = refl

asked_ties : compare_messages ascii asked asked ≡ same
unfolding chat_code
asked_ties = refl

comes_before_cycle_example :
    (comes_before ascii asked answered ≡ true)
    × (comes_before ascii answered unrelated ≡ true)
    × (comes_before ascii unrelated asked ≡ true)
unfolding chat_code
comes_before_cycle_example =
    comes_before_cycle ascii asked answered unrelated refl refl refl refl refl

empty-IsValid : IsValid empty
empty-IsValid = new_ledger-IsValid 2

add_with_reason_iff_example :
    ((add_with_reason ascii one (some late)).1.0 ≡ true) ↔ IsAdmissible one late
add_with_reason_iff_example = add_with_reason_iff ascii one late

late_refused : (add_with_reason ascii one (some late)).1.0 ≡ false
unfolding chat_code
late_refused = refl

asked_taken : takes ascii empty asked ≡ true
unfolding chat_code
asked_taken = refl

regression_refused_example :
    takes ascii (after_all ascii (after ascii empty asked) (unrelated ∷ answered ∷ [])) late ≡ false
unfolding chat_code
regression_refused_example =
    regression_refused ascii empty asked (unrelated ∷ answered ∷ []) late asked_taken refl
      (omega arith) (omega arith)

chained_taken : takes ascii empty chained ≡ true
unfolding chat_code
chained_taken = refl

has_prev : bytes "h1" ≢ []
has_prev e = ground arith

other_id : bytes "m5" ≢ bytes "m4"
other_id e = ground arith

fork_refused_example :
    takes ascii (after_all ascii (after ascii empty chained) (unrelated ∷ [])) fork ≡ false
fork_refused_example =
    fork_refused ascii empty chained (unrelated ∷ []) fork chained_taken has_prev refl refl other_id

one-IsValid : IsValid one
one-IsValid = add_with_reason-IsValid ascii empty (some asked) empty-IsValid
