-- ===== src/Examples/Personas.antt =====
-- A persona for the runs of internal/ai/orchestrator.go, and the messages that it reads.
use distributed_multi_agent.Base.{
  ℕ, zero, suc, ◌+◌, ◌*◌, ◌/◌, ◌≡◌, refl, List, [], ◌∷◌, Bool, true, false, none, arith, ltb, leb,
  Bytes, bytes, decimal, decimal_digits, last_n, has_prefix, contains, index_of, last_index_of,
  shift_index, replace_all, replace_from, has_byte, trim_left, trim, trim_prefix, split_lines,
  split_lines_from,
}
use distributed_multi_agent.Batcher.{ChatMessage}
use distributed_multi_agent.Examples.Sample.{ascii, chat_code}
use distributed_multi_agent.Mention.{mentioned}
use distributed_multi_agent.Orchestrator.Float.{Float, IsIeee}
use distributed_multi_agent.Orchestrator.History.{
  all_keys, chat_before, compact_history, compare_chat_message, compare_chat_ties,
  compare_vector_clock, count_ai, flags_sign, include_all, less_flags, sort_chat_messages,
  trailing_ai,
}
use distributed_multi_agent.Orchestrator.Ollama.{
  call_ollama_calibration, call_ollama_plain, chat_request, finished_reply, generate, other_models,
  plain_refused, strip_think, try_models, calibrate_reply, calibrated, parse_calibration_result,
}
use distributed_multi_agent.Orchestrator.Prompts.{
  build_calibration_prompts, build_chat_prompt, build_user_prompt, chat_lines, latest_of,
  silence_rule,
}
use distributed_multi_agent.Orchestrator.Score.{
  Orchestrator, Persona, new_orchestrator, should_respond, trigger,
}
use distributed_multi_agent.Orchestrator.Turns.{
  Turn, decide, explicit_mention, filter_own, process, start_turn, take_in, memory_section_of,
}
use distributed_multi_agent.Orchestrator.Words.{
  byte_at, clean_marks, clean_reply, fallback_reply, find_name, has_cue, is_name_char, json_part,
  looks_like_question, is_open_group_prompt, mentions_name, message_mentions_persona, stands_alone,
  strip_name_prefix,
}

-- Numbers in hundredths, rounded down.
abbrev pub fixed : Float
fixed = record {
  carrier = ℕ;
  hundredths = λ n. n;
  of_nat = λ n. n * 100;
  add = λ x y. x + y;
  mul = λ x y. x * y / 100;
  div = λ x y. x * 100 / y;
  lt = ltb;
  le = leb;
  show = decimal;
}

pub fixed-IsIeee : IsIeee fixed
fixed-IsIeee = record {
  le_trans = λ x y z p q. ground arith;
  zero_le = refl;
  one_lt = λ x p. ground arith;
  mul_zero = λ m small. ground arith;
  sum-mul_zero = λ m n p q. ground arith;
  mul_fraction = λ x n p q r. let none_left : x ≡ 0 = ground arith in rw none_left (ground arith);
  fraction_above = λ n small. ground arith;
}

-- All that a run of a persona computes with.
unfoldable pub persona_code : Unit {0}
unfolding chat_code include_all less_flags flags_sign all_keys compare_vector_clock
    compare_chat_ties compare_chat_message chat_before sort_chat_messages count_ai trailing_ai
    compact_history last_n has_prefix contains index_of last_index_of shift_index replace_all
    replace_from has_byte trim_left trim trim_prefix split_lines split_lines_from mentioned byte_at
    stands_alone is_name_char find_name mentions_name message_mentions_persona has_cue
    looks_like_question is_open_group_prompt fallback_reply clean_marks clean_reply json_part
    strip_name_prefix latest_of filter_own take_in memory_section_of start_turn explicit_mention
    decide process new_orchestrator should_respond trigger decimal decimal_digits
persona_code = tt

-- And all that the request to the language model computes with.
unfoldable pub model_code : Unit {0}
unfolding chat_lines silence_rule build_chat_prompt build_user_prompt build_calibration_prompts
    chat_request plain_refused call_ollama_plain call_ollama_calibration strip_think
    parse_calibration_result calibrated calibrate_reply other_models finished_reply try_models
    generate
model_code = tt

abbrev pub spoken : Bytes → Bytes → Bool → ℕ → ChatMessage
spoken name text is_ai counter = record {
  id = bytes "m1";
  sender_id = name;
  sender_name = name;
  content = text;
  is_ai = is_ai;
  mentions = [];
  mention_all = false;
  vector_clock = (name, counter) ∷ [];
}

abbrev pub persona : Persona
persona = record { name = bytes "Ann"; style = bytes "calm"; model = bytes "llama3:8b" }

abbrev idle : Orchestrator
idle = new_orchestrator persona none 0

-- Six AI messages, each later than the question.
abbrev pub late : ChatMessage
late = record (spoken (bytes "Bot") (bytes "yes") true 5) {
  vector_clock = (bytes "Bob", 2) ∷ (bytes "Bot", 5) ∷ [];
}

abbrev pub chained : Orchestrator
chained = record idle { history = late ∷ late ∷ late ∷ late ∷ late ∷ late ∷ [] }

abbrev pub question : ChatMessage
question = spoken (bytes "Bob") (bytes "hey Ann, still up?") false 1

abbrev pub answer : Turn
answer = start_turn (take_in ascii chained (question ∷ [])) question true false

-- `n` times the same message.
abbrev pub repeat_message : ℕ → ChatMessage → List ChatMessage
repeat_message zero msg = []
repeat_message (suc n) msg = msg ∷ repeat_message n msg
