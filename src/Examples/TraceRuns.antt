-- ===== src/Examples/TraceRuns.antt =====
-- The traces of internal/p2p/pubsub.go with a toy key scheme and decoder.
use distributed_multi_agent.Base.{
  ◌≤◌, ◌≡◌, ◌≢◌, ◌↔◌, false, refl, arith, none, some, length, bytes, Bytes, In, ok, [],
}
use distributed_multi_agent.Examples.Sample.{alice, ascii, bob, validate_code}
use distributed_multi_agent.Examples.ValidateRuns.{codec, fresh, plain, reads, toy}
use distributed_multi_agent.Trace.Gaps.{clock_step_absent}
use distributed_multi_agent.Trace.Verdicts.{dropped_step, trace_tells}
use distributed_multi_agent.Trace.{build_security_trace, clock_step}
use distributed_multi_agent.Chat.{own_clock}
use distributed_multi_agent.Types.{Message}
use distributed_multi_agent.Validate.{quarantined, validate_signed_message}

chat_named : (reads []).kind (bytes "{}") ≡ ok []
chat_named = refl

-- A chat message has no kind.
abbrev chat_kind : Bytes
chat_kind = []

chat_other : chat_kind ≢ bytes "activity"
chat_other e = cc

trace_tells_example :
    In dropped_step
      (build_security_trace ascii toy codec
        (reads [])
        (bytes "{}")
        bob
        (some (bytes "malformed"))).steps
    ↔ (some (bytes "malformed") ≢ none)
trace_tells_example =
    trace_tells ascii toy codec (reads []) (bytes "{}") bob [] (some (bytes "malformed")) chat_named
      chat_other

-- A message without its sender's counter.
abbrev unclocked : Message
unclocked = record plain { vector_clock = [] }

some_id : unclocked.id ≢ []
unfolding validate_code
some_id e = cc

some_sender : unclocked.sender_id ≢ []
unfolding validate_code
some_sender e = cc

some_name : unclocked.sender_name ≢ []
unfolding validate_code
some_name e = cc

short : length unclocked.content ≤ 8192
unfolding validate_code
short = omega arith

trusted : quarantined toy codec fresh unclocked.sender_id ≡ false
unfolding validate_code
trusted = refl

unclocked_zero : own_clock unclocked ≡ 0
unfolding validate_code
unclocked_zero = refl

clock_step_absent_example :
    ((validate_signed_message toy codec (some unclocked) fresh bob).0 ≢ none)
    × (¬ In
        (clock_step ascii toy codec (reads []))
        (build_security_trace ascii toy codec
          (reads [])
          (bytes "{}")
          alice
          (validate_signed_message toy codec (some unclocked) fresh bob).0).steps)
clock_step_absent_example =
    clock_step_absent ascii toy codec (reads []) unclocked fresh bob (bytes "{}") alice [] some_id
      some_sender some_name short trusted unclocked_zero chat_named chat_other
