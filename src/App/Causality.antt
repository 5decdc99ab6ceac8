-- ===== src/App/Causality.antt =====
-- cmd/main.go: how the clock of a message that a node sends stands to those of the messages that it has
-- taken.
use distributed_multi_agent.App.{
  App, accept_message, broadcast_diagnostics, refuse, remember_message, show, ai_message_from_types,
  compose, merge_clock, route, sign_and_publish,
}
use distributed_multi_agent.Base.{
  ℕ, ◌+◌, ◌-◌, ◌<◌, ◌≡◌, ◌≢◌, refl, ap, ◌∙◌, inl, inr, List, Bool, true, Option, none, some, arith,
  Bool-cases, Option-cases, Bytes, GoMap, at,
}
use distributed_multi_agent.Batcher.{ChatMessage}
use distributed_multi_agent.Chat.{add_with_reason, own_clock}
use distributed_multi_agent.Clock.Causal.{compare_iff_Means}
use distributed_multi_agent.Clock.Merge.{at-copy, at-increment, at-merge}
use distributed_multi_agent.Clock.{
  VectorClock, before, compare, copy, increment, merge, snapshot, u64,
}
use distributed_multi_agent.Crypto.{Identity, Libp2p}
use distributed_multi_agent.Trust.{TrustTracker}
use distributed_multi_agent.Types.{Codec, Message, new_message}
use distributed_multi_agent.Unicode.{Unicode}
use distributed_multi_agent.Validate.Signed.{validate_signed_message_iff}
use distributed_multi_agent.Validate.{validate_signed_message}

module _ (u : Unicode) where
  route_keeps :
      (s : App) (cm : ChatMessage) (trigger_ai : Bool) (now : ℕ)
      → ((route u s cm trigger_ai now).0.vc ≡ s.vc)
        × ((route u s cm trigger_ai now).0.peer_id ≡ s.peer_id)
  unfolding route remember_message
  route_keeps s cm trigger_ai now = ground arith

  -- A message that is taken is merged into the clock.
  taken_clock :
      (s : App) (msg : Message) (self trigger_ai : Bool) (now : ℕ)
      → (accept_message u s (some msg) self trigger_ai now).1.0 ≡ true
      → ((accept_message u s (some msg) self trigger_ai now).0.vc ≡ merge_clock s.vc msg)
        × ((accept_message u s (some msg) self trigger_ai now).0.peer_id ≡ s.peer_id)
  unfolding accept_message broadcast_diagnostics refuse show
  taken_clock s msg self trigger_ai now taken = elim (Option-cases s.ledger) [
    | inl e ↦ absurd (ground arith)
    | inr (l, e) ↦ elim (Bool-cases (add_with_reason u l (some msg)).1.0) [
      | inr refused ↦ absurd (ground arith)
      | inl ok ↦ ground (
        arith,
        route_keeps (show u s (add_with_reason u l (some msg)).0 msg self)
            (ai_message_from_types msg) trigger_ai now,
      )
    ]
  ]

  module _ (p : Libp2p) (c : Codec) where
    composed :
        (s : App) (identity : Identity) (vc : VectorClock) (id sender_name content : Bytes)
        (is_ai : Bool) (mentions : List Bytes) (mention_all : Bool)
        → ((compose u p c s identity vc id sender_name content is_ai mentions
              mention_all).vector_clock
            ≡ copy (snapshot vc))
          × ((compose u p c s identity vc id sender_name content is_ai mentions
                mention_all).sender_id
              ≡ s.peer_id)
    unfolding compose new_message
    composed s identity vc id sender_name content is_ai mentions mention_all = (refl, refl)

    -- A message that is sent carries the clock after the increment.
    sent_clock :
        (s : App) (publish : Message → Bool) (id sender_name content : Bytes) (is_ai : Bool)
        (mentions : List Bytes) (mention_all : Bool) (vc : VectorClock) (msg : Message)
        → s.vc ≡ some vc
        → (sign_and_publish u p c s publish id sender_name content is_ai mentions mention_all).1
          ≡ some msg
        → (msg.vector_clock ≡ copy (snapshot (increment vc s.peer_id)))
          × (msg.sender_id ≡ s.peer_id)
    unfolding sign_and_publish broadcast_diagnostics
    sent_clock s publish id sender_name content is_ai mentions mention_all vc msg has sent =
        elim (Option-cases s.identity) [
          | inl e ↦ absurd (ground arith)
          | inr (identity, e) ↦ ground (
            arith,
            composed s identity (increment vc s.peer_id) id sender_name content is_ai mentions
                mention_all,
          )
        ]

    reply_clock :
        (s : App) (vc : VectorClock) (msg reply : Message) (self trigger_ai : Bool) (now : ℕ)
        (publish : Message → Bool) (id sender_name content : Bytes) (is_ai : Bool)
        (mentions : List Bytes) (mention_all : Bool)
        → s.vc ≡ some vc
        → (accept_message u s (some msg) self trigger_ai now).1.0 ≡ true
        → (sign_and_publish u p c
            (accept_message u s (some msg) self trigger_ai now).0
            publish
            id
            sender_name
            content
            is_ai
            mentions
            mention_all).1
          ≡ some reply
        → (reply.vector_clock ≡ copy (snapshot (increment (merge vc msg.vector_clock) s.peer_id)))
          × (reply.sender_id ≡ s.peer_id)
    unfolding merge_clock
    reply_clock s vc msg reply self trigger_ai now publish id sender_name content is_ai mentions
          mention_all has taken sent =
        let (merged, same) = taken_clock s msg self trigger_ai now taken in
        let s' = (accept_message u s (some msg) self trigger_ai now).0 in
        let has' : s'.vc ≡ some (merge vc msg.vector_clock) =
          merged ∙ ap (λ o. merge_clock o msg) has in
        let (stamp, from) =
          sent_clock s' publish id sender_name content is_ai mentions mention_all
            (merge vc msg.vector_clock) reply has' sent in
        (
          stamp ∙ ap (λ pid. copy (snapshot (increment (merge vc msg.vector_clock) pid))) same,
          from ∙ same,
        )

    -- What each counter of a reply reads.
    at-reply :
        (vc : VectorClock) (remote : GoMap ℕ) (pid k : Bytes)
        → at (copy (snapshot (increment (merge vc remote) pid))) k
          ≡ at (increment (merge vc remote) pid).clock k
    unfolding snapshot
    at-reply vc remote pid k =
        at-copy (copy (increment (merge vc remote) pid).clock) k
        ∙ at-copy (increment (merge vc remote) pid).clock k

    -- Causality: a message that a node sends after it has taken another one carries a clock strictly
    -- after that of the other one, unless the node's 64-bit counter wraps.
    pub reply_comes_after :
        (s : App) (vc : VectorClock) (msg reply : Message) (self trigger_ai : Bool) (now : ℕ)
        (publish : Message → Bool) (id sender_name content : Bytes) (is_ai : Bool)
        (mentions : List Bytes) (mention_all : Bool)
        → s.vc ≡ some vc
        → (accept_message u s (some msg) self trigger_ai now).1.0 ≡ true
        → (sign_and_publish u p c
            (accept_message u s (some msg) self trigger_ai now).0
            publish
            id
            sender_name
            content
            is_ai
            mentions
            mention_all).1
          ≡ some reply
        → at (merge vc msg.vector_clock).clock s.peer_id + 1 < u64
        → compare msg.vector_clock reply.vector_clock ≡ before
    reply_comes_after s vc msg reply self trigger_ai now publish id sender_name content is_ai
          mentions mention_all has taken sent small =
        let (stamp, from) =
          reply_clock s vc msg reply self trigger_ai now publish id sender_name content is_ai
            mentions mention_all has taken sent in
        let reads = λ (k : Bytes).
          ap (λ (m : GoMap ℕ). at m k) stamp ∙ at-reply vc msg.vector_clock s.peer_id k in
        let up = at-increment (merge vc msg.vector_clock) s.peer_id in
        (compare_iff_Means msg.vector_clock reply.vector_clock before).1 (
          λ k. ground (arith, reads k, up k, at-merge vc msg.vector_clock k),
          (
            s.peer_id,
            ground (arith, reads s.peer_id, up s.peer_id, at-merge vc msg.vector_clock s.peer_id),
          ),
        )

    -- A node can be silenced: once it has taken a message whose clock puts the node's own counter at
    -- 2^64 - 1, its next message carries the counter 0 for itself, and no other node accepts it,
    -- whatever its tracker holds and whoever forwards the message.
    pub silenced_by_clock :
        (s : App) (vc : VectorClock) (msg reply : Message) (self trigger_ai : Bool) (now : ℕ)
        (publish : Message → Bool) (id sender_name content : Bytes) (is_ai : Bool)
        (mentions : List Bytes) (mention_all : Bool) (trust : Option TrustTracker) (fwd : Bytes)
        → s.vc ≡ some vc
        → (accept_message u s (some msg) self trigger_ai now).1.0 ≡ true
        → (sign_and_publish u p c
            (accept_message u s (some msg) self trigger_ai now).0
            publish
            id
            sender_name
            content
            is_ai
            mentions
            mention_all).1
          ≡ some reply
        → at vc.clock s.peer_id < u64
        → at msg.vector_clock s.peer_id ≡ u64 - 1
        → (own_clock reply ≡ 0)
          × (validate_signed_message p c (some reply) trust fwd ≢ (none, trust))
    silenced_by_clock s vc msg reply self trigger_ai now publish id sender_name content is_ai
          mentions mention_all trust fwd has taken sent small poisoned =
        let (stamp, from) =
          reply_clock s vc msg reply self trigger_ai now publish id sender_name content is_ai
            mentions mention_all has taken sent in
        let pid = s.peer_id in
        let zero_own : own_clock reply ≡ 0 =
          ap (λ k. at reply.vector_clock k) from
          ∙ ap (λ (m : GoMap ℕ). at m pid) stamp
          ∙ at-reply vc msg.vector_clock pid pid
          ∙ ground (
            arith,
            at-increment (merge vc msg.vector_clock) pid pid,
            at-merge vc msg.vector_clock pid,
          ) in
        (
          zero_own,
          λ good.
              let a = (validate_signed_message_iff p c reply trust fwd).0 good in
              let clocked = a.clocked in absurd (omega arith),
        )
