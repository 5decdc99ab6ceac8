-- ===== src/Chat/Merged.antt =====
-- `Stats` of internal/chat/ledger.go: the clock that it reports.
use distributed_multi_agent.Base.{ℕ, ◌≤◌, ◌↔◌, List, [], ◌∷◌, arith, All, Bytes, GoMap, get, at}
use distributed_multi_agent.Chat.Queries.{merged_clock, stats}
use distributed_multi_agent.Chat.{Ledger}
use distributed_multi_agent.Clock.Causal.{Leq}
use distributed_multi_agent.Clock.Merge.{merge-IsLeast}
use distributed_multi_agent.Clock.{merge}
use distributed_multi_agent.Types.{Message}

nothing_below : (c : GoMap ℕ) (k : Bytes) → at [] k ≤ at c k
unfolding at get
nothing_below c k = omega arith

merged_clock-IsLeast :
    (msgs : List Message) (vc c : GoMap ℕ)
    → Leq (merged_clock vc msgs) c ↔ (Leq vc c × All (λ msg. Leq msg.vector_clock c) msgs)
unfolding merged_clock merge
merged_clock-IsLeast [] vc c = (λ h. (h, tt), λ (h, _). h)
merged_clock-IsLeast (msg ∷ msgs) vc c =
    let one = merge-IsLeast (record { clock = vc }) msg.vector_clock c in
    let rest = merged_clock-IsLeast msgs (merge (record { clock = vc }) msg.vector_clock).clock c in
    (
      λ h. let (above, all) = rest.0 h in let (up, here) = one.0 above in (up, (here, all)),
      λ (up, (here, all)). rest.1 (one.1 (up, here), all),
    )

-- The clock that `Stats` reports is the least clock above those of all stored messages: a clock is
-- above it exactly if it is above each of them.
pub stats_clock-IsLeast :
    (l : Ledger) (c : GoMap ℕ)
    → Leq (stats l).vector_clock c ↔ All (λ msg. Leq msg.vector_clock c) l.messages
unfolding stats
stats_clock-IsLeast l c =
    let all = merged_clock-IsLeast l.messages [] c in
    (λ h. (all.0 h).1, λ h. all.1 (λ k. nothing_below c k, h))
