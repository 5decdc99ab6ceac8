-- ===== src/Orchestrator/Score/Chain.antt =====
-- internal/ai/orchestrator.go: the score of a reply after a chain of AI messages.
use distributed_multi_agent.Base.{
  ℕ, ◌≤◌, ◌≡◌, refl, ◌⊎◌, inl, inr, ◌++◌, Bool, true, false, ◌||◌, arith, Bytes, bytes,
}
use distributed_multi_agent.Batcher.{ChatMessage}
use distributed_multi_agent.Orchestrator.Float.{Float, IsIeee}
use distributed_multi_agent.Orchestrator.Score.{
  Orchestrator, asked_score, chain_decay, clamp01, cooled_score, deterministic_fraction,
  deterministic_percent, reply_score, should_respond, trigger,
}
use distributed_multi_agent.Unicode.{Unicode}

sum_cases : {A B : Type 0} (s : A ⊎ B) → ((a : A) × (s ≡ inl a)) ⊎ ((b : B) × (s ≡ inr b))
sum_cases (inl a) = inl (a, refl)
sum_cases (inr b) = inr (b, refl)

module _ (f : Float) (ieee : IsIeee f) where
  -- The score is not above zero.
  abbrev IsNought : f.carrier → Type 0
  IsNought x = f.le x (f.hundredths 0) ≡ true

  chain_decay_long : (depth : ℕ) → 6 ≤ depth → chain_decay f depth ≡ f.hundredths 0
  unfolding chain_decay
  chain_decay_long depth long = ground arith

  clamp01-IsNought : (x : f.carrier) → IsNought x → IsNought (clamp01 f x)
  unfolding clamp01
  clamp01-IsNought x h = ground (arith, ieee.zero_le, ieee.one_lt x h)

  fraction_above_zero : (key : Bytes) → f.le (f.hundredths 0) (deterministic_fraction f key) ≡ true
  unfolding deterministic_fraction deterministic_percent
  fraction_above_zero key = ieee.fraction_above (deterministic_percent key) (omega arith)

  module _ (u : Unicode) where
    asked_score-IsNought :
        (latest : ChatMessage) (base : ℕ)
        → base ≤ 100
        → IsNought (f.mul (asked_score f u latest base) (f.hundredths 0))
    unfolding asked_score
    asked_score-IsNought latest base small = ground (
      arith,
      ieee.mul_zero base small,
      ieee.sum-mul_zero base 15 small (omega arith),
      ieee.sum-mul_zero base 20 small (omega arith),
    )

    cooled_score-IsNought :
        (o : Orchestrator) (now : ℕ) (x : f.carrier)
        → IsNought x
        → IsNought (cooled_score f u o now x)
    unfolding cooled_score
    cooled_score-IsNought o now x h = ground (
      arith,
      ieee.mul_fraction x 35 h (omega arith) (omega arith),
      ieee.mul_fraction x 65 h (omega arith) (omega arith),
    )

    trigger-small :
        (o : Orchestrator) (latest : ChatMessage) (explicit : Bool) (base : ℕ) (reason : Bytes)
        → trigger f u o latest explicit ≡ inr (base, reason)
        → base ≤ 100
    unfolding trigger
    trigger-small o latest explicit base reason h = ground arith

    trigger-direct :
        (o : Orchestrator) (latest : ChatMessage) (explicit : Bool) (reason : Bytes)
        → trigger f u o latest explicit ≡ inl (true, reason)
        → (latest.is_ai ≡ false) × ((explicit || latest.mention_all) ≡ true)
    unfolding trigger
    trigger-direct o latest explicit reason h = ground arith

    reply_score-IsNought :
        (o : Orchestrator) (now : ℕ) (latest : ChatMessage) (depth base : ℕ)
        → 6 ≤ depth
        → base ≤ 100
        → IsNought (reply_score f u o now latest depth base)
    unfolding reply_score
    reply_score-IsNought o now latest depth base long small =
        rw (chain_decay_long depth long)
          (cooled_score-IsNought o now _ (asked_score-IsNought latest base small))

    long_chain_refused :
        (o : Orchestrator) (now : ℕ) (latest : ChatMessage) (depth base : ℕ) (explicit : Bool)
        (reason : Bytes)
        → 6 ≤ depth
        → trigger f u o latest explicit ≡ inr (base, reason)
        → (should_respond f u o now latest depth explicit).0 ≡ false
    unfolding should_respond
    long_chain_refused o now latest depth base explicit reason long t =
        let score = clamp01 f (reply_score f u o now latest depth base) in
        let nought = clamp01-IsNought _ (
          reply_score-IsNought o now latest depth base long
            (trigger-small o latest explicit base reason t)) in
        let roll = latest.id ++ (bytes "|reply|" ++ o.persona.name) in
        let above =
          ieee.le_trans score (f.hundredths 0) (deterministic_fraction f roll) nought
            (fraction_above_zero roll) in
        rw (t, should_respond) (ground arith)

    -- After six AI messages in a row a persona answers nothing but a human message that mentions it or
    -- everybody, whatever the message says and whenever it last spoke.
    pub chain_ends :
        (o : Orchestrator) (now : ℕ) (latest : ChatMessage) (depth : ℕ) (explicit : Bool)
        → 6 ≤ depth
        → (should_respond f u o now latest depth explicit).0 ≡ true
        → (latest.is_ai ≡ false) × ((explicit || latest.mention_all) ≡ true)
    unfolding should_respond
    chain_ends o now latest depth explicit long h =
        elim (sum_cases (trigger f u o latest explicit)) [
          | inl ((said, reason), t) ↦ trigger-direct o latest explicit reason (ground arith)
          | inr ((base, reason), t) ↦
              absurd
                (ground (arith, long_chain_refused o now latest depth base explicit reason long t))
        ]
