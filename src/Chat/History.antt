-- ===== src/Chat/History.antt =====
-- What the ledger of internal/chat/ledger.go remembers through any later run of messages, also of
-- messages that it has evicted.
use distributed_multi_agent.Base.{
  ◌≤◌, ◌<◌, ◌≡◌, sym, ◌∙◌, ap, ◌≢◌, List, [], ◌∷◌, Bool, true, false, some, arith, Bytes, get, at,
}
use distributed_multi_agent.Chat.Admission.{get-accept_chain, get-accept_clock}
use distributed_multi_agent.Chat.Invariant.{IsValid, add_with_reason-IsValid}
use distributed_multi_agent.Chat.{Ledger, add_with_reason, chain_key, forks, own_clock, regresses}
use distributed_multi_agent.Types.{Message}
use distributed_multi_agent.Unicode.{Unicode}

same_key :
    (a b : Message)
    → a.sender_id ≡ b.sender_id
    → a.prev_hash ≡ b.prev_hash
    → chain_key a ≡ chain_key b
unfolding chain_key
same_key a b p q = cc

module _ (u : Unicode) where
  abbrev pub after : Ledger → Message → Ledger
  after l msg = (add_with_reason u l (some msg)).0

  abbrev pub takes : Ledger → Message → Bool
  takes l msg = (add_with_reason u l (some msg)).1.0

  -- The ledger after a run of messages.
  unfoldable pub after_all : Ledger → List Message → Ledger
  after_all l [] = l
  after_all l (msg ∷ msgs) = after_all (after l msg) msgs

  clock_mono :
      (l : Ledger) (msg : Message) (s : Bytes)
      → at l.sender_clock s ≤ at (after l msg).sender_clock s
  unfolding add_with_reason at
  clock_mono l msg s = ground (arith, get-accept_clock u l msg s)

  clock_mono_all :
      (l : Ledger) (msgs : List Message) (s : Bytes)
      → at l.sender_clock s ≤ at (after_all l msgs).sender_clock s
  unfolding after_all
  clock_mono_all l [] s = omega arith
  clock_mono_all l (msg ∷ msgs) s =
      omega (arith, clock_mono l msg s, clock_mono_all (after l msg) msgs s)

  clock_of_taken :
      (l : Ledger) (msg : Message)
      → takes l msg ≡ true
      → own_clock msg ≤ at (after l msg).sender_clock msg.sender_id
  unfolding add_with_reason at
  clock_of_taken l msg h = ground (arith, get-accept_clock u l msg msg.sender_id)

  refused_of_clock :
      (l : Ledger) (msg : Message)
      → 0 < own_clock msg
      → own_clock msg ≤ at l.sender_clock msg.sender_id
      → takes l msg ≡ false
  unfolding add_with_reason regresses at
  refused_of_clock l msg pos h = ground arith

  -- Once a message of a sender has been taken, no message of that sender with a positive own
  -- counter that is not larger is ever taken again, whatever arrives in between.
  pub regression_refused :
      (l : Ledger) (msg : Message) (msgs : List Message) (late : Message)
      → takes l msg ≡ true
      → late.sender_id ≡ msg.sender_id
      → 0 < own_clock late
      → own_clock late ≤ own_clock msg
      → takes (after_all (after l msg) msgs) late ≡ false
  regression_refused l msg msgs late taken same_sender pos le =
      refused_of_clock (after_all (after l msg) msgs) late pos (
        omega (
          arith,
          ap (at (after_all (after l msg) msgs).sender_clock) same_sender,
          clock_of_taken l msg taken,
          clock_mono_all (after l msg) msgs msg.sender_id,
        ))

  chain_kept :
      (l : Ledger) (msg : Message) (k id : Bytes)
      → get l.prev_hash_by_sender k ≡ some id
      → get (after l msg).prev_hash_by_sender k ≡ some id
  unfolding add_with_reason forks
  chain_kept l msg k id h = ground (arith, get-accept_chain u l msg k)

  chain_kept_all :
      (l : Ledger) (msgs : List Message) (k id : Bytes)
      → get l.prev_hash_by_sender k ≡ some id
      → get (after_all l msgs).prev_hash_by_sender k ≡ some id
  unfolding after_all
  chain_kept_all l [] k id h = h
  chain_kept_all l (msg ∷ msgs) k id h =
      chain_kept_all (after l msg) msgs k id (chain_kept l msg k id h)

  chain_of_taken :
      (l : Ledger) (msg : Message)
      → takes l msg ≡ true
      → msg.prev_hash ≢ []
      → get (after l msg).prev_hash_by_sender (chain_key msg) ≡ some msg.id
  unfolding add_with_reason
  chain_of_taken l msg h n = ground (arith, get-accept_chain u l msg (chain_key msg))

  refused_of_chain :
      (l : Ledger) (msg : Message) (id : Bytes)
      → msg.prev_hash ≢ []
      → get l.prev_hash_by_sender (chain_key msg) ≡ some id
      → id ≢ msg.id
      → takes l msg ≡ false
  unfolding add_with_reason forks
  refused_of_chain l msg id n h ne = ground arith

  -- Once a message that names a predecessor has been taken, no other message of the same sender
  -- that names the same predecessor is ever taken, whatever arrives in between.
  pub fork_refused :
      (l : Ledger) (msg : Message) (msgs : List Message) (fork : Message)
      → takes l msg ≡ true
      → msg.prev_hash ≢ []
      → fork.sender_id ≡ msg.sender_id
      → fork.prev_hash ≡ msg.prev_hash
      → fork.id ≢ msg.id
      → takes (after_all (after l msg) msgs) fork ≡ false
  fork_refused l msg msgs fork taken named same_sender same_prev other =
      refused_of_chain (after_all (after l msg) msgs) fork msg.id (λ e. named (sym same_prev ∙ e))
        (rw (same_key fork msg same_sender same_prev) (
          chain_kept_all (after l msg) msgs (chain_key msg) msg.id
            (chain_of_taken l msg taken named)))
        (λ e. other (sym e))

  -- If a ledger is valid, it is after any run of messages: its stored messages have different IDs,
  -- the ID set holds exactly those, and there are no more messages than the limit allows.
  after_all-IsValid : (l : Ledger) (msgs : List Message) → IsValid l → IsValid (after_all l msgs)
  unfolding after_all
  after_all-IsValid l [] v = v
  after_all-IsValid l (msg ∷ msgs) v =
      after_all-IsValid (after l msg) msgs (add_with_reason-IsValid u l (some msg) v)
