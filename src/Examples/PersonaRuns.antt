-- ===== src/Examples/PersonaRuns.antt =====
-- internal/ai/orchestrator.go with ASCII text, fixed-point numbers and a language model that always
-- gives the same answer.
use distributed_multi_agent.Base.{
  ℕ, ◌||◌, ◌≡◌, ◌≢◌, ◌≤◌, ◌<◌, refl, List, [], ◌∷◌, true, false, none, some, arith, if◌then◌else◌,
  length, Bytes, bytes, All, ok, err,
}
use distributed_multi_agent.Batcher.{ChatMessage}
use distributed_multi_agent.Validate.{eqb}
use distributed_multi_agent.Clock.{compare}
use distributed_multi_agent.Examples.Sample.{ascii}
use distributed_multi_agent.Orchestrator.History.Causal.{compare_vector_clock_agrees, ordering_sign}
use distributed_multi_agent.Orchestrator.History.{compare_vector_clock, trailing_ai}
use distributed_multi_agent.Orchestrator.Ollama.Facts.{IsFact, extract_memories-IsFact}
use distributed_multi_agent.Orchestrator.Ollama.{Ollama, generate}
use distributed_multi_agent.Orchestrator.Recall.{extract_memories}
use distributed_multi_agent.Orchestrator.Prompts.{latest_of}
use distributed_multi_agent.Orchestrator.Turns.Answered.{chain_ends_turns, human_mention_answered}
use distributed_multi_agent.Orchestrator.Turns.Runs.{
  IsBounded, IsSilent, batch, ended, run, run-IsBounded, run-stopped,
}
use distributed_multi_agent.Orchestrator.Turns.{
  Turn, explicit_mention, filter_own, process, take_in,
}
use distributed_multi_agent.Orchestrator.Words.Mentions.{
  IsWordAt, mentions_name_ends, mentions_name_found,
}
use distributed_multi_agent.Orchestrator.Words.Repeats.{own_count}
use distributed_multi_agent.Orchestrator.Words.{mentions_name, name_fuel, strip_name_prefix}
use distributed_multi_agent.Examples.Personas.{
  fixed, fixed-IsIeee, persona_code, model_code, spoken, persona, late, chained, question, answer,
  repeat_message,
}

question_mentions : explicit_mention ascii chained question ≡ true
unfolding persona_code
question_mentions = refl

question_left : latest_of (filter_own chained.persona.name (question ∷ [])) ≡ some question
unfolding persona_code
question_left = refl

chained_long : 6 ≤ trailing_ai ascii (take_in ascii chained (question ∷ [])).history
unfolding persona_code
chained_long = omega arith

answer_started : (process ascii fixed chained 9 (question ∷ [])).1 ≡ some answer
unfolding persona_code
answer_started = refl

chained_running : chained.stopped ≡ false
unfolding persona_code
chained_running = refl

human_mention_answered_example :
    (t : Turn) × ((process ascii fixed chained 9 (question ∷ [])).1 ≡ some t)
    × (t.must_reply ≡ true)
    × (t.latest ≡ question)
human_mention_answered_example =
    human_mention_answered ascii fixed chained 9 (question ∷ []) question chained_running
      question_left refl question_mentions

chain_ends_turns_example :
    (answer.latest.is_ai ≡ false)
    × ((explicit_mention ascii chained answer.latest || answer.latest.mention_all) ≡ true)
    × (answer.must_reply ≡ true)
chain_ends_turns_example =
    chain_ends_turns ascii fixed fixed-IsIeee chained 9 (question ∷ []) answer chained_long
      answer_started

-- `onReply` returns the message that is sent.
abbrev sent : Bytes → Bytes → ChatMessage
sent name content = spoken name content true 7

pub lower_keeps : (s : Bytes) → length (ascii.to_lower s) ≡ length s
lower_keeps [] = refl
lower_keeps (c ∷ s) = ground (arith, lower_keeps s)

lower_some : (s : Bytes) → s ≢ [] → ascii.to_lower s ≢ []
lower_some [] h = absurd (h refl)
lower_some (c ∷ s) h = λ e. cc

chained-IsBounded : IsBounded ascii fixed sent chained
unfolding persona_code
chained-IsBounded = omega arith

run-IsBounded_example :
    IsBounded ascii fixed sent
      (run ascii fixed sent chained (batch 9 (question ∷ []) ∷ ended 10 answer [] ∷ [])).0
run-IsBounded_example =
    run-IsBounded ascii fixed sent chained (batch 9 (question ∷ []) ∷ ended 10 answer [] ∷ [])
      chained-IsBounded

run-stopped_example :
    ((run ascii fixed sent (record chained { stopped = true }) (ended 10 answer [] ∷ [])).0.stopped
      ≡ true)
    × All
        (IsSilent ascii fixed sent)
        (run ascii fixed sent (record chained { stopped = true }) (ended 10 answer [] ∷ [])).1
run-stopped_example =
    run-stopped ascii fixed sent (record chained { stopped = true }) (ended 10 answer [] ∷ []) refl

some_clock : late.vector_clock ≢ []
some_clock e = cc

question_clock : question.vector_clock ≢ []
question_clock e = cc

compare_vector_clock_agrees_example :
    compare_vector_clock question.vector_clock late.vector_clock
    ≡ ordering_sign (compare question.vector_clock late.vector_clock)
compare_vector_clock_agrees_example =
    compare_vector_clock_agrees question.vector_clock late.vector_clock question_clock some_clock

-- Thirty-two messages, of which the newest two stand first.
abbrev crowd : List ChatMessage
crowd = late ∷ late ∷ repeat_message 30 question

crowd_long : length crowd ≡ 32
crowd_long = refl

mentions_name_ends_example :
    mentions_name ascii (name_fuel ascii question.content) question.content (bytes "Ann") ≢ none
mentions_name_ends_example = mentions_name_ends ascii question.content (bytes "Ann") lower_some

ann_found :
    mentions_name ascii (name_fuel ascii question.content) question.content (bytes "Ann")
    ≡ some true
unfolding persona_code
ann_found = refl

-- `annex` does not mention Ann.
annex_ignored :
    mentions_name ascii (name_fuel ascii (bytes "an annex")) (bytes "an annex") (bytes "Ann")
    ≡ some false
unfolding persona_code
annex_ignored = refl

-- The search goes on behind an occurrence that is no word, and so passes over a word that overlaps it.
overlap_missed :
    mentions_name ascii (name_fuel ascii (bytes "ba-a-a")) (bytes "ba-a-a") (bytes "a-a")
    ≡ some false
unfolding persona_code
overlap_missed = refl

mentions_name_found_example :
    (i : ℕ) × IsWordAt
      (ascii.to_lower question.content)
      (ascii.to_lower (ascii.trim_space (bytes "Ann")))
      i
mentions_name_found_example =
    mentions_name_found ascii (name_fuel ascii question.content) question.content (bytes "Ann")
      ann_found

stripped : strip_name_prefix ascii (bytes "ann: hi") (bytes "Ann") ≡ some (bytes "hi")
unfolding persona_code
stripped = refl

abbrev said : ChatMessage
said = spoken (bytes "Ann") (bytes "YES!") true 3

few_since : own_count ascii (bytes "Ann") (question ∷ []) < 5
unfolding own_count
few_since = omega arith

said_own : ascii.equal_fold said.sender_name (bytes "Ann") ≡ true
unfolding persona_code
said_own = refl

-- A model that knows one thing about Bob.
abbrev teller : Ollama
teller = record {
  marshal = λ request. ok request.model;
  post = λ body. ok (200, body);
  content = λ body. ok (bytes "- Bob lives in Taipei\nNONE");
  calibration = λ text. err [];
}

extract_memories-IsFact_example :
    All (IsFact ascii) (extract_memories ascii teller (bytes "m") (question ∷ []) (bytes "ok") 4096)
extract_memories-IsFact_example =
    extract_memories-IsFact ascii teller (bytes "m") (question ∷ []) (bytes "ok") 4096

-- A server that has only one of the fallback models.
abbrev server : Ollama
server = record {
  marshal = λ request. ok request.model;
  post = λ body. ok (if eqb body (bytes "qwen3:4b") then 200 else 404, bytes "not found");
  content = λ body. ok (bytes "sure thing");
  calibration = λ text. err [];
}

fell_back : (generate ascii server persona (question ∷ []) [] 4096 true).0 ≡ some (bytes "qwen3:4b")
unfolding persona_code model_code
fell_back = refl
