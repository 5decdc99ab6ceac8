-- ===== src/Chat/Order.antt =====
-- `CompareMessages` of internal/chat/ledger.go as an order: what it keeps, and where it fails.
use distributed_multi_agent.Base.{
  ◌≡◌, true, arith, less, same, flip, compare_bytes, compare_bytes-flip, compare_bytes-same,
  compare_bytes_self,
}
use distributed_multi_agent.Chat.{clone_message, compare_ties, compare_messages, comes_before}
use distributed_multi_agent.Clock.Causal.{compare_congr, compare_swap, converse}
use distributed_multi_agent.Clock.Merge.{at-copy}
use distributed_multi_agent.Clock.{Ordering, before, after, concurrent, equal, copy}
use distributed_multi_agent.Clock
use distributed_multi_agent.Types.{Message}
use distributed_multi_agent.Unicode.{Unicode}

module _ (u : Unicode) where
  compare_ties_swap : (a b : Message) → compare_ties u b a ≡ flip (compare_ties u a b)
  unfolding compare_ties
  compare_ties_swap a b = ground (
    arith,
    u.equal_fold_comm a.sender_name b.sender_name,
    compare_bytes-flip a.sender_id b.sender_id,
    compare_bytes-flip a.id b.id,
    compare_bytes-flip a.content b.content,
    compare_bytes-flip (u.to_lower a.sender_name) (u.to_lower b.sender_name),
  )

  -- Comparing two messages the other way round gives the opposite sign, so that of two messages
  -- at most one comes before the other.
  pub compare_messages_swap :
      (a b : Message) → compare_messages u b a ≡ flip (compare_messages u a b)
  unfolding compare_messages converse flip
  compare_messages_swap a b =
      ground (arith, compare_swap a.vector_clock b.vector_clock, compare_ties_swap a b)

  -- A message that happened before another one comes first, whatever their senders and texts.
  pub compare_messages_of_before :
      (a b : Message)
      → Clock.compare a.vector_clock b.vector_clock ≡ before
      → compare_messages u a b ≡ less
  unfolding compare_messages
  compare_messages_of_before a b h = ground arith

  -- Two messages that tie have the same sender and the same message ID.
  pub compare_messages_same :
      (a b : Message) → compare_messages u a b ≡ same → (a.sender_id ≡ b.sender_id) × (a.id ≡ b.id)
  unfolding compare_messages compare_ties
  compare_messages_same a b h =
      ground (arith, compare_bytes-same a.sender_id b.sender_id, compare_bytes-same a.id b.id)

  -- The order has cycles. Take two messages of which the first happened before the second, and a
  -- third that is concurrent with both and whose sender ID lies strictly between theirs, the
  -- second message's being the least. Then the first comes before the second, the second before
  -- the third, and the third before the first.
  pub comes_before_cycle :
      (a c b : Message)
      → Clock.compare a.vector_clock c.vector_clock ≡ before
      → Clock.compare b.vector_clock a.vector_clock ≡ concurrent
      → Clock.compare c.vector_clock b.vector_clock ≡ concurrent
      → compare_bytes c.sender_id b.sender_id ≡ less
      → compare_bytes b.sender_id a.sender_id ≡ less
      → (comes_before u a c ≡ true) × (comes_before u c b ≡ true) × (comes_before u b a ≡ true)
  unfolding comes_before compare_messages compare_ties
  comes_before_cycle a c b hac hba hcb scb sba =
      ground (arith, compare_bytes_self c.sender_id, compare_bytes_self b.sender_id)

  -- A stored copy of a message is ordered as the message is.
  pub compare_messages-clone :
      (a b : Message) → compare_messages u (clone_message a) b ≡ compare_messages u a b
  unfolding compare_messages compare_ties clone_message
  compare_messages-clone a b = ground (
    arith,
    compare_congr a.vector_clock (copy a.vector_clock) b.vector_clock (at-copy a.vector_clock),
  )
