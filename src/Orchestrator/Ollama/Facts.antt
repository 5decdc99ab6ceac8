-- ===== src/Orchestrator/Ollama/Facts.antt =====
-- internal/ai/orchestrator.go: the facts that a persona stores, and the removal of what a model thinks.
use distributed_multi_agent.Base.{
  ℕ, zero, suc, ◌+◌, ◌≤◌, ◌<◌, ◌≡◌, ◌≢◌, List, [], ◌∷◌, false, ◌||◌, none, arith, ltb,
  if◌then◌else◌, length, length-drop, drop, Bytes, bytes, All, index_of, index_of-OccursAt,
  length-has_prefix, Bool-cases, Option-cases, Result-cases, split_lines, ◌==◌, inl, inr, last_n,
}
use distributed_multi_agent.Batcher.{ChatMessage}
use distributed_multi_agent.Orchestrator.Ollama.{Ollama, chat_request, strip_think, without_think}
use distributed_multi_agent.Orchestrator.Recall.{
  extract_memories, extracted_facts, fact_of, facts_of, is_kept_fact, junk_phrases,
}
use distributed_multi_agent.Orchestrator.Prompts.{memory_rules, memory_prompt}
use distributed_multi_agent.Orchestrator.Words.{has_cue}
use distributed_multi_agent.Unicode.{Unicode}
use distributed_multi_agent.Validate.{eqb, is_empty}

-- The removal of the thoughts from a text ends: with a step for each byte and one more it has a result.
pub strip_think_ends : (fuel : ℕ) (s : Bytes) → length s < fuel → strip_think fuel s ≢ none
unfolding strip_think
strip_think_ends zero s enough = absurd (omega arith)
strip_think_ends (suc fuel) s enough = elim (Option-cases (index_of s (bytes "<think>"))) [
  | inl e ↦ λ h. ground arith
  | inr (i, e) ↦ elim (Option-cases (index_of (drop (i + 7) s) (bytes "</think>"))) [
    | inl e' ↦ λ h. ground arith
    | inr (j, e') ↦
        let (within, opened) = index_of-OccursAt s (bytes "<think>") i e in
        let room = length-has_prefix (bytes "<think>") (drop i s) opened in
        let rest = drop (j + 8) (drop (i + 7) s) in
        let ends = strip_think_ends fuel rest (
          omega (
            arith,
            room,
            length-drop i s,
            length-drop (j + 8) (drop (i + 7) s),
            length-drop (i + 7) s,
          )) in
        λ h. ground arith
  ]
]

module _ (u : Unicode) where
  -- What a stored fact is: a text of 10 to 140 bytes with none of the phrases of an answer that knows
  -- nothing.
  abbrev pub IsFact : Bytes → Type 0
  IsFact fact =
      ((10 ≤ length fact) × (length fact ≤ 140)) × (has_cue (u.to_lower fact) junk_phrases ≡ false)

  module _ (l : Ollama) where
    facts_of-IsFact : (lines : List Bytes) → All IsFact (facts_of u l lines)
    unfolding facts_of is_kept_fact
    facts_of-IsFact [] = tt
    facts_of-IsFact (line ∷ lines) = elim (Bool-cases (is_kept_fact u l (fact_of u l line))) [
      | inl e ↦ rw (e, facts_of) (ground arith, facts_of-IsFact lines)
      | inr e ↦ rw (e, facts_of) (facts_of-IsFact lines)
    ]

    extracted_facts-IsFact : (content : Bytes) → All IsFact (extracted_facts u l content)
    unfolding extracted_facts
    extracted_facts-IsFact content =
        let cleaned = u.trim_space (without_think content) in
        elim (Bool-cases
          (eqb (u.trim_space (u.to_upper cleaned)) (bytes "NONE") || is_empty cleaned)) [
            | inl e ↦ rw (e, extracted_facts) tt
            | inr e ↦ rw (e, extracted_facts) (facts_of-IsFact (split_lines cleaned))
          ]

    -- Whatever the language model answers, and also where it does not, each fact that the persona is to
    -- remember has 10 to 140 bytes and none of the phrases of an answer that knows nothing.
    pub extract_memories-IsFact :
        (model : Bytes) (history : List ChatMessage) (ai_response : Bytes) (num_ctx : ℕ)
        → All IsFact (extract_memories u l model history ai_response num_ctx)
    unfolding extract_memories
    extract_memories-IsFact model history ai_response num_ctx =
        let request =
          chat_request model memory_rules (memory_prompt (last_n 10 history) ai_response) []
            (if ltb num_ctx 2048 then num_ctx else 2048) 130 30 in
        elim (Result-cases (l.marshal request)) [
          | inr (e, m) ↦ rw (m, extract_memories) tt
          | inl (body, m) ↦ elim (Result-cases (l.post body)) [
            | inr (e, p) ↦ rw (m, p, extract_memories) tt
            | inl ((status, answer), p) ↦ elim (Bool-cases (status == 200)) [
              | inr s ↦ rw (m, p, s, extract_memories) tt
              | inl s ↦ elim (Result-cases (l.content answer)) [
                | inr (e, r) ↦ rw (m, p, s, r, extract_memories) tt
                | inl (content, r) ↦
                    rw (m, p, s, r, extract_memories) (extracted_facts-IsFact content)
              ]
            ]
          ]
        ]
