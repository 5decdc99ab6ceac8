-- ===== src/Orchestrator/History/Kept.antt =====
-- internal/ai/orchestrator.go: what compacting a history keeps.
use distributed_multi_agent.Base.{
  ℕ, ◌-◌, ◌≡◌, List, arith, ltb, if◌then◌else◌, length, length-drop, length-sort_stable, last_n,
}
use distributed_multi_agent.Batcher.{ChatMessage}
use distributed_multi_agent.Orchestrator.History.{
  chat_before, compact_history, max_history, sort_chat_messages,
}
use distributed_multi_agent.Unicode.{Unicode}

pub length-last_n :
    {A : Type 0} (n : ℕ) (xs : List A)
    → length (last_n n xs) ≡ (if ltb n (length xs) then n else length xs)
unfolding last_n
length-last_n n xs = ground (arith, length-drop (length xs - n) xs)

module _ (u : Unicode) where
  pub length-compact_history :
      (h : List ChatMessage)
      → length (compact_history u h)
        ≡ (if ltb max_history (length h) then max_history else length h)
  unfolding compact_history sort_chat_messages
  length-compact_history h = ground (
    arith,
    length-last_n max_history (sort_chat_messages u h),
    length-sort_stable (chat_before u) h,
  )
