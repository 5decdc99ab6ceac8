-- ===== src/Orchestrator/History.antt =====
-- internal/ai/orchestrator.go: the history of a persona, in the causal order of its messages.
pub mod Causal
pub mod Kept
use distributed_multi_agent.Base.{
  ℕ, ◌+◌, List, [], ◌∷◌, Bool, true, false, not, ◌&&◌, ite, ltb, if◌then◌else◌, Bytes,
  Bytes-discrete, GoMap, keys, at, StringSet, include, Sign, less, same, greater, compare_bytes,
  sort_stable, last_n,
}
use distributed_multi_agent.Batcher.{ChatMessage}
use distributed_multi_agent.Unicode.{Unicode}
use mathlib.Core.List.{reverse}

abbrev pub max_history : ℕ
max_history = 30

-- The loop `for k := range m { keys[k] = struct{}{} }`.
unfoldable pub include_all : StringSet → List Bytes → StringSet
include_all set [] = set
include_all set (k ∷ ks) = include_all (include set k) ks

-- The loop over the keys of both clocks; the flags are `aLess` and `bLess`.
unfoldable pub less_flags : GoMap ℕ → GoMap ℕ → List Bytes → Bool × Bool → Bool × Bool
less_flags a b [] flags = flags
less_flags a b (k ∷ ks) (a_less, b_less) =
    less_flags a b ks (
      if ltb (at a k) (at b k) then true else a_less,
      if ltb (at b k) (at a k) then true else b_less,
    )

unfoldable pub flags_sign : Bool × Bool → Sign
flags_sign (a_less, b_less) =
    if a_less && not b_less then less else if b_less && not a_less then greater else same

-- The keys of the two clocks.
unfoldable pub all_keys : GoMap ℕ → GoMap ℕ → List Bytes
all_keys a b = keys (include_all (include_all [] (keys a)) (keys b))

unfoldable pub compare_vector_clock : GoMap ℕ → GoMap ℕ → Sign
compare_vector_clock [] b = same
compare_vector_clock (x ∷ a) [] = same
compare_vector_clock (x ∷ a) (y ∷ b) =
    flags_sign (less_flags (x ∷ a) (y ∷ b) (all_keys (x ∷ a) (y ∷ b)) (false, false))

module _ (u : Unicode) where
  -- `compareChatMessage` where the clocks do not tell.
  unfoldable pub compare_chat_ties : ChatMessage → ChatMessage → Sign
  compare_chat_ties a b =
      ite (Bytes-discrete a.sender_id b.sender_id)
        (ite (Bytes-discrete a.id b.id)
          (ite (Bytes-discrete a.sender_name b.sender_name) (compare_bytes a.content b.content)
            (compare_bytes (u.to_lower a.sender_name) (u.to_lower b.sender_name)))
          (compare_bytes a.id b.id))
        (compare_bytes a.sender_id b.sender_id)

  unfoldable pub compare_chat_message : ChatMessage → ChatMessage → Sign
  compare_chat_message a b = elim (compare_vector_clock a.vector_clock b.vector_clock) [
    | less ↦ less
    | greater ↦ greater
    | same ↦ compare_chat_ties a b
  ]

  unfoldable pub chat_before : ChatMessage → ChatMessage → Bool
  chat_before a b = elim (compare_chat_message a b) [ less ↦ true | same ↦ false | greater ↦ false ]

  unfoldable pub sort_chat_messages : List ChatMessage → List ChatMessage
  sort_chat_messages msgs = sort_stable chat_before msgs

  -- The loop of `trailingAI`, on the messages from the last one on.
  unfoldable pub count_ai : List ChatMessage → ℕ
  count_ai [] = 0
  count_ai (m ∷ ms) = let rest = count_ai ms in if m.is_ai then 1 + rest else 0

  unfoldable pub trailing_ai : List ChatMessage → ℕ
  trailing_ai history = count_ai (reverse (sort_chat_messages history))

  unfoldable pub compact_history : List ChatMessage → List ChatMessage
  compact_history history = last_n max_history (sort_chat_messages history)
