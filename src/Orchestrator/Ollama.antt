-- ===== src/Orchestrator/Ollama.antt =====
-- internal/ai/orchestrator.go: the requests to the language model, and what becomes of its answers.
-- The model runs in another process; what it answers is a parameter.
pub mod Facts
pub mod Fallback
use distributed_multi_agent.Base.{
  ℕ, zero, suc, ◌+◌, List, [], ◌∷◌, ◌++◌, Bool, true, false, not, ◌&&◌, ◌||◌, Option, none, some,
  ltb, leb, ◌==◌, if◌then◌else◌, length, take, drop, Bytes, bytes, Result, ok, err, contains,
  has_prefix, index_of, trim_prefix, split_lines, last_n,
}
use distributed_multi_agent.Batcher.{ChatMessage}
use distributed_multi_agent.Memory.{Disk, Memory, MemoryStore, remember}
use distributed_multi_agent.Orchestrator.Prompts.{
  build_calibration_prompts, build_chat_prompt, build_user_prompt, latest_of, memory_prompt,
  memory_rules,
}
use distributed_multi_agent.Orchestrator.Score.{Persona}
use distributed_multi_agent.Orchestrator.Words.{clean_reply, has_cue, json_part}
use distributed_multi_agent.Unicode.{Unicode}
use distributed_multi_agent.Validate.{eqb, is_empty}

pub record OllamaMessage : Type 0 where
  pub role : Bytes
  pub content : Bytes

-- The two numbers of the options that are not whole are in hundredths.
pub record OllamaOptions : Type 0 where
  pub num_ctx : ℕ
  pub repeat_penalty : ℕ
  pub temperature : ℕ

pub record OllamaRequest : Type 0 where
  pub model : Bytes
  pub messages : List OllamaMessage
  pub stream : Bool
  pub format : Bytes
  pub options : OllamaOptions

-- What the code calls of `encoding/json` and `net/http`: `post` is the status and the body of the
-- answer to a request body, or an error (which a cancelled context is, too), `content` the message
-- of an answer, and `calibration` the fields `ok` and `revised_reply` of a verdict.
pub record Ollama : Type 0 where
  pub marshal : OllamaRequest → Result Bytes
  pub post : Bytes → Result (ℕ × Bytes)
  pub content : Bytes → Result Bytes
  pub calibration : Bytes → Result (Bool × Bytes)

abbrev pub decision_ctx_n : ℕ
decision_ctx_n = 8

abbrev pub calibration_ctx_n : ℕ
calibration_ctx_n = 6

abbrev pub fallback_models : List Bytes
fallback_models =
    bytes "nemotron-mini:latest"
    ∷ bytes "nemotron-mini"
    ∷ bytes "qwen3:4b"
    ∷ bytes "llama3.2:3b"
    ∷ bytes "llama3:8b"
    ∷ []

-- `thinkRe.ReplaceAllString(raw, "")`; `none` where the fuel does not last.
unfoldable pub strip_think : ℕ → Bytes → Option Bytes
strip_think zero s = none
strip_think (suc fuel) s = elim (index_of s (bytes "<think>")) [
  | none ↦ some s
  | some i ↦ elim (index_of (drop (i + 7) s) (bytes "</think>")) [
    | none ↦ some s
    | some j ↦ elim (strip_think fuel (drop (j + 8) (drop (i + 7) s))) [
      | none ↦ none
      | some rest ↦ some (take i s ++ rest)
    ]
  ]
]

-- Every step drops some bytes, so that as many steps as there are bytes are enough.
abbrev pub without_think : Bytes → Bytes
without_think s = elim (strip_think (suc (length s)) s) [ none ↦ s | some t ↦ t ]

unfoldable pub chat_request : Bytes → Bytes → Bytes → Bytes → ℕ → ℕ → ℕ → OllamaRequest
chat_request model sys_prompt user_prompt format num_ctx repeat_penalty temperature = record {
  model = model;
  messages =
      (record { role = bytes "system"; content = sys_prompt })
      ∷ (record { role = bytes "user"; content = user_prompt })
      ∷ [];
  stream = false;
  format = format;
  options = record {
    num_ctx = num_ctx;
    repeat_penalty = repeat_penalty;
    temperature = temperature;
  };
}

module _ (u : Unicode) (l : Ollama) where
  -- The answer of `callOllamaPlain` to a status that is not 200.
  unfoldable pub plain_refused : ℕ → Bytes → Bytes × Bool
  plain_refused status body = ([], status == 404 && contains (u.to_lower body) (bytes "not found"))

  unfoldable pub call_ollama_plain : Bytes → Bytes → Bytes → ℕ → Bytes × Bool
  call_ollama_plain model sys_prompt user_prompt num_ctx =
      elim (l.marshal (chat_request model sys_prompt user_prompt [] num_ctx 120 45)) [
        | err e ↦ ([], false)
        | ok body ↦ elim (l.post body) [
          | err e ↦ ([], false)
          | ok (status, answer) ↦
              if not (status == 200)
              then plain_refused status answer
              else elim (l.content answer) [ err e ↦ ([], false) | ok text ↦ (text, false) ]
        ]
      ]

  unfoldable pub call_ollama_calibration : Bytes → Bytes → Bytes → ℕ → Bytes
  call_ollama_calibration model sys_prompt user_prompt num_ctx =
      elim (l.marshal (
        chat_request model sys_prompt user_prompt (bytes "json")
          (if ltb 2048 num_ctx then 2048 else num_ctx) 110 20)) [
            | err e ↦ []
            | ok body ↦ elim (l.post body) [
              | err e ↦ []
              | ok (status, answer) ↦
                  if not (status == 200)
                  then []
                  else elim (l.content answer) [ err e ↦ [] | ok text ↦ u.trim_space text ]
            ]
          ]

  unfoldable pub parse_calibration_result : Bytes → Bool × Bytes
  parse_calibration_result text =
      let raw = u.trim_space text in
      if is_empty raw
      then (true, [])
      else elim (l.calibration (json_part raw)) [ err e ↦ (true, []) | ok out ↦ out ]

  -- `calibrateReply` once there is a verdict `raw`.
  unfoldable pub calibrated : Bytes → Bytes → Bytes
  calibrated raw draft =
      let (fine, revised) = parse_calibration_result raw in
      if is_empty raw || (fine || is_empty (u.trim_space revised))
      then draft
      else u.trim_space revised

  unfoldable pub calibrate_reply : Bytes → Bytes → List ChatMessage → Bytes → ℕ → Bytes
  calibrate_reply model self_name history draft num_ctx = elim (latest_of history) [
    | none ↦ draft
    | some latest ↦
        if is_empty (u.trim_space draft)
        then draft
        else (let (sys_prompt, user_prompt) =
              build_calibration_prompts self_name (last_n calibration_ctx_n history) latest draft in
            calibrated (call_ollama_calibration model sys_prompt user_prompt num_ctx) draft)
  ]

  -- The models after the persona's own.
  unfoldable pub other_models : Bytes → List Bytes → List Bytes
  other_models model [] = []
  other_models model (candidate ∷ candidates) =
      let rest = other_models model candidates in
      if not (is_empty candidate) && not (u.equal_fold candidate model)
      then candidate ∷ rest
      else rest

  -- What `generate` makes of an answer that is not empty.
  unfoldable pub finished_reply : Bytes → Bytes → List ChatMessage → ℕ → Bool → Bytes → Bytes
  finished_reply model self_name history num_ctx mentioned raw =
      let reply = clean_reply u (u.trim_space (without_think raw)) mentioned in
      let better = calibrate_reply model self_name history reply num_ctx in
      if is_empty reply
      then []
      else clean_reply u (if is_empty better then reply else better) mentioned

  -- The loop of `generate`: the model that answered, where it is not the first, and the reply.
  unfoldable pub try_models :
      Persona → List ChatMessage → Bytes → Bytes → ℕ → Bool → ℕ → List Bytes → Option Bytes × Bytes
  try_models persona history sys_prompt user_prompt num_ctx mentioned idx [] = (none, [])
  try_models persona history sys_prompt user_prompt num_ctx mentioned idx (m ∷ ms) =
      let (raw, missing_model) = call_ollama_plain m sys_prompt user_prompt num_ctx in
      let rest = try_models persona history sys_prompt user_prompt num_ctx mentioned (idx + 1) ms in
      if is_empty raw && not missing_model
      then (none, [])
      else if not (is_empty raw)
      then (
        if ltb 0 idx then some m else none,
        finished_reply m persona.name history num_ctx mentioned raw,
      )
      else rest

  unfoldable pub generate : Persona → List ChatMessage → Bytes → ℕ → Bool → Option Bytes × Bytes
  generate persona history memory_section num_ctx mentioned =
      try_models persona history (build_chat_prompt persona mentioned ++ memory_section)
        (build_user_prompt history persona.name mentioned) num_ctx mentioned 0
        (persona.model ∷ other_models persona.model fallback_models)
