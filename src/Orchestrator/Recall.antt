-- ===== src/Orchestrator/Recall.antt =====
-- internal/ai/orchestrator.go: `extractMemories`, the facts that a persona keeps of a conversation.
use distributed_multi_agent.Base.{
  ℕ, List, [], ◌∷◌, Bool, not, ◌&&◌, ◌||◌, ltb, ◌==◌, if◌then◌else◌, length, Bytes, bytes, ok, err,
  trim_prefix, split_lines, last_n,
}
use distributed_multi_agent.Batcher.{ChatMessage}
use distributed_multi_agent.Memory.{Disk, Memory, MemoryStore, remember}
use distributed_multi_agent.Orchestrator.Prompts.{memory_prompt, memory_rules}
use distributed_multi_agent.Orchestrator.Words.{has_cue}
use distributed_multi_agent.Unicode.{Unicode}
use distributed_multi_agent.Validate.{eqb, is_empty}
use distributed_multi_agent.Orchestrator.Ollama.{Ollama, chat_request, without_think}

abbrev pub junk_phrases : List Bytes
junk_phrases =
    bytes "none"
    ∷ bytes "no fact"
    ∷ bytes "not enough"
    ∷ bytes "cannot determine"
    ∷ bytes "no concrete"
    ∷ bytes "none found"
    ∷ bytes "not provided"
    ∷ bytes "conversation"
    ∷ bytes "chat history"
    ∷ bytes "possibly"
    ∷ bytes "maybe"
    ∷ bytes "earlier"
    ∷ bytes "talking with"
    ∷ bytes "having a conversation"
    ∷ bytes "provided by you"
    ∷ []

module _ (u : Unicode) (l : Ollama) where
  -- A line of the answer as the fact that it states.
  unfoldable pub fact_of : Bytes → Bytes
  fact_of line =
      u.trim_space (trim_prefix (trim_prefix (u.trim_space line) (bytes "- ")) (bytes "* "))

  unfoldable pub is_kept_fact : Bytes → Bool
  is_kept_fact line =
      not (
        is_empty line
        || (u.equal_fold line (bytes "NONE") || (ltb (length line) 10 || ltb 140 (length line))))
      && not (has_cue (u.to_lower line) junk_phrases)

  -- The loop over the lines: the facts that the memory is given.
  unfoldable pub facts_of : List Bytes → List Bytes
  facts_of [] = []
  facts_of (line ∷ lines) =
      let rest = facts_of lines in if is_kept_fact (fact_of line) then fact_of line ∷ rest else rest

  -- The facts in the answer to `extractMemories`.
  unfoldable pub extracted_facts : Bytes → List Bytes
  extracted_facts content =
      let cleaned = u.trim_space (without_think content) in
      if eqb (u.trim_space (u.to_upper cleaned)) (bytes "NONE") || is_empty cleaned
      then []
      else facts_of (split_lines cleaned)

  unfoldable pub extract_memories : Bytes → List ChatMessage → Bytes → ℕ → List Bytes
  extract_memories model history ai_response num_ctx =
      elim (l.marshal (
        chat_request model memory_rules (memory_prompt (last_n 10 history) ai_response) []
          (if ltb num_ctx 2048 then num_ctx else 2048) 130 30)) [
            | err e ↦ []
            | ok body ↦ elim (l.post body) [
              | err e ↦ []
              | ok (status, answer) ↦
                  if not (status == 200)
                  then []
                  else elim (l.content answer) [ err e ↦ [] | ok content ↦ extracted_facts content ]
            ]
          ]

-- The calls of `memory.Add` for the facts, each with its fresh ID and time.
unfoldable pub add_facts : Disk → MemoryStore → (Bytes → Memory) → List Bytes → MemoryStore
add_facts d ms made [] = ms
add_facts d ms made (fact ∷ facts) = add_facts d (remember d ms (made fact)) made facts
