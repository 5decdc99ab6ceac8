-- ===== src/Orchestrator/Words/Repeats.antt =====
-- internal/ai/orchestrator.go: which replies `isDuplicate` takes for repeats.
use distributed_multi_agent.Base.{
  ℕ, ◌+◌, ◌<◌, ◌≡◌, List, [], ◌∷◌, ◌++◌, true, ◌&&◌, arith, if◌then◌else◌, Bytes,
}
use distributed_multi_agent.Batcher.{ChatMessage}
use distributed_multi_agent.Orchestrator.Float.{Float}
use distributed_multi_agent.Orchestrator.Words.{has_duplicate, is_duplicate, is_same_reply}
use distributed_multi_agent.Unicode.{Unicode}
use mathlib.Core.List.{reverse, reverse_aux, reverse_aux-append, reverse_aux-eq}

-- The persona's own messages, counted.
unfoldable pub own_count : Unicode → Bytes → List ChatMessage → ℕ
own_count u self_name [] = 0
own_count u self_name (m ∷ ms) =
    let rest = own_count u self_name ms in
    if m.is_ai && u.equal_fold m.sender_name self_name then 1 + rest else rest

module _ (u : Unicode) (f : Float) where
  has_duplicate_at :
      (text name : Bytes) (count : ℕ) (newer older : List ChatMessage) (m : ChatMessage)
      → m.is_ai ≡ true
      → u.equal_fold m.sender_name name ≡ true
      → u.to_lower (u.trim_space m.content) ≡ text
      → count + own_count u name newer < 5
      → has_duplicate u f text name count (newer ++ (m ∷ older)) ≡ true
  unfolding has_duplicate own_count is_same_reply
  has_duplicate_at text name count [] older m ai own same few = ground arith
  has_duplicate_at text name count (n ∷ newer) older m ai own same few = ground (
    arith,
    has_duplicate_at text name
        (if n.is_ai && u.equal_fold n.sender_name name then count + 1 else count) newer older m ai
        own same,
  )

  own_count-reverse_aux :
      (name : Bytes) (xs ys : List ChatMessage)
      → own_count u name (reverse_aux xs ys) ≡ own_count u name xs + own_count u name ys
  unfolding own_count
  own_count-reverse_aux name [] ys = omega arith
  own_count-reverse_aux name (x ∷ xs) ys = ground (arith, own_count-reverse_aux name xs (x ∷ ys))

  -- A reply is suppressed as a repeat if the persona has said the same up to case and surrounding
  -- blanks, and has said fewer than five things since.
  pub repeat_suppressed :
      (reply name : Bytes) (older newer : List ChatMessage) (m : ChatMessage)
      → m.is_ai ≡ true
      → u.equal_fold m.sender_name name ≡ true
      → u.to_lower (u.trim_space m.content) ≡ u.to_lower (u.trim_space reply)
      → own_count u name newer < 5
      → is_duplicate u f reply (older ++ (m ∷ newer)) name ≡ true
  unfolding is_duplicate own_count
  repeat_suppressed reply name older newer m ai own same few =
      rw (reverse_aux-append older (m ∷ newer) [], reverse_aux-eq newer (m ∷ reverse older))
        (has_duplicate_at (u.to_lower (u.trim_space reply)) name 0 (reverse newer) (reverse older) m
          ai own same (omega (arith, own_count-reverse_aux name newer [])))
