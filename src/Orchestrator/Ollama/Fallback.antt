-- ===== src/Orchestrator/Ollama/Fallback.antt =====
-- internal/ai/orchestrator.go: the models that a persona may end up with.
use distributed_multi_agent.Base.{
  ℕ, ◌+◌, ◌≡◌, ◌<◌, subst, ◌⊎◌, inl, inr, List, [], ◌∷◌, ◌++◌, Bool, false, not, ◌&&◌, Option, some,
  arith, Bytes, In, Bool-cases,
}
use distributed_multi_agent.Batcher.{ChatMessage}
use distributed_multi_agent.Orchestrator.Ollama.{
  Ollama, fallback_models, generate, other_models, try_models,
}
use distributed_multi_agent.Orchestrator.Prompts.{build_chat_prompt, build_user_prompt}
use distributed_multi_agent.Orchestrator.Score.{Persona}
use distributed_multi_agent.Unicode.{Unicode}
use distributed_multi_agent.Validate.{is_empty}

module _ (u : Unicode) (l : Ollama) where
  other_models-In :
      (model m : Bytes) (ms : List Bytes)
      → In m (other_models u l model ms)
      → In m ms × (u.equal_fold m model ≡ false)
  unfolding other_models
  other_models-In model m [] h = absurd h
  other_models-In model m (c ∷ cs) h =
      elim (Bool-cases (not (is_empty c) && not (u.equal_fold c model))) [
        | inl e ↦
            let kept : other_models u l model (c ∷ cs) ≡ c ∷ other_models u l model cs =
              ground arith in
            elim (subst (λ xs. In m xs) kept h) [
              | inl p ↦ (inl p, ground arith)
              | inr i ↦ let (known, other) = other_models-In model m cs i in (inr known, other)
            ]
        | inr e ↦
            let skipped : other_models u l model (c ∷ cs) ≡ other_models u l model cs =
              ground arith in
            let (known, other) = other_models-In model m cs (subst (λ xs. In m xs) skipped h) in
            (inr known, other)
      ]

  module _ (persona : Persona) (history : List ChatMessage) (sys_prompt user_prompt : Bytes)
      (num_ctx : ℕ) (mentioned : Bool) where
    try : ℕ → List Bytes → Option Bytes × Bytes
    try = try_models u l persona history sys_prompt user_prompt num_ctx mentioned

    try_first :
        (idx : ℕ) (n m : Bytes) (ms : List Bytes)
        → (try idx (n ∷ ms)).0 ≡ some m
        → ((0 < idx) × (n ≡ m)) ⊎ ((try (idx + 1) ms).0 ≡ some m)
    unfolding try try_models
    try_first idx n m ms h = ground arith

    try_later : (idx : ℕ) (ms : List Bytes) (m : Bytes) → (try idx ms).0 ≡ some m → In m ms
    unfolding try try_models
    try_later idx [] m h = absurd (ground arith)
    try_later idx (n ∷ ms) m h = elim (try_first idx n m ms h) [
      | inl (late, e) ↦ inl e
      | inr r ↦ inr (try_later (idx + 1) ms m r)
    ]

  -- `generate` only ever moves a persona to one of the fallback models, and to one whose name is not
  -- that of its own model up to case.
  pub generate-In :
      (persona : Persona) (history : List ChatMessage) (memory_section : Bytes) (num_ctx : ℕ)
      (mentioned : Bool) (m : Bytes)
      → (generate u l persona history memory_section num_ctx mentioned).0 ≡ some m
      → In m fallback_models × (u.equal_fold m persona.model ≡ false)
  unfolding generate try
  generate-In persona history memory_section num_ctx mentioned m h =
      let sys_prompt = build_chat_prompt persona mentioned ++ memory_section in
      let user_prompt = build_user_prompt history persona.name mentioned in
      elim (try_first persona history sys_prompt user_prompt num_ctx mentioned 0 persona.model m
        (other_models u l persona.model fallback_models) h) [
          | inl (late, e) ↦ absurd (omega arith)
          | inr r ↦ other_models-In persona.model m fallback_models (
              try_later persona history sys_prompt user_prompt num_ctx mentioned 1
                (other_models u l persona.model fallback_models) m r)
        ]
