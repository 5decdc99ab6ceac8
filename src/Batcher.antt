-- ===== src/Batcher.antt =====
-- internal/ai/batcher.go: the buffer of messages for the AI, with its idle and maximum timers. Each
-- method touches the buffer under `mu`, which is one step here; it gives the batch that the method has
-- taken, if there is one. The method lets go of `mu` before it hands the batch to `invokeFlush`, which
-- waits for `flushMu`: the call of `onFlush` is a step of its own (`invoke_flush`), and batches that
-- wait together may be passed on in any order. A timer is the time at which it fires, in
-- nanoseconds. A timer that has fired already runs `timerFlush` even if it is stopped then, so that
-- `timer_flush` may come at any time.
pub mod Batches
pub mod Buffer
pub mod Calls
pub mod Limits
use distributed_multi_agent.Base.{
  ℕ, zero, suc, ◌+◌, List, [], ◌∷◌, ◌++◌, Bool, true, false, Option, none, some, leb, ◌==◌,
  if◌then◌else◌, length, Bytes, GoMap,
}

abbrev pub idle_timeout : ℕ
idle_timeout = 3_000_000_000

abbrev pub max_timeout : ℕ
max_timeout = 20_000_000_000

abbrev pub capacity_trigger : ℕ
capacity_trigger = 15

pub record ChatMessage : Type 0 where
  pub id : Bytes
  pub sender_id : Bytes
  pub sender_name : Bytes
  pub content : Bytes
  pub is_ai : Bool
  pub mentions : List Bytes
  pub mention_all : Bool
  pub vector_clock : GoMap ℕ

pub record Batcher : Type 0 where
  pub messages : List ChatMessage
  pub idle_timer : Option ℕ
  pub max_timer : Option ℕ
  pub stopped : Bool

unfoldable pub new_batcher : Batcher
new_batcher = record { messages = []; idle_timer = none; max_timer = none; stopped = false }

unfoldable pub stop : Batcher → Batcher
stop b = record b { messages = []; idle_timer = none; max_timer = none; stopped = true }

unfoldable pub drain : Batcher → Batcher × List ChatMessage
drain b = (record b { messages = []; idle_timer = none; max_timer = none }, b.messages)

unfoldable pub do_flush_locked : Batcher → Batcher × List ChatMessage
do_flush_locked b = if length b.messages == 0 then (b, []) else drain b

-- `if len(batch) > 0 { b.invokeFlush(batch) }`.
unfoldable pub invoked : List ChatMessage → Option (List ChatMessage)
invoked [] = none
invoked (msg ∷ msgs) = some (msg ∷ msgs)

-- `Add` up to the test of the capacity, at the time `now`.
unfoldable pub buffer : Batcher → ℕ → ChatMessage → Batcher
buffer b now msg = record b {
  messages = b.messages ++ (msg ∷ []);
  idle_timer = some (now + idle_timeout);
  max_timer = if length b.messages == 0 then some (now + max_timeout) else b.max_timer;
}

-- `Add`, up to `invokeFlush`.
unfoldable pub add : Batcher → ℕ → ChatMessage → Batcher × Option (List ChatMessage)
add b now msg =
    if b.stopped
    then (b, none)
    else if leb capacity_trigger (length (buffer b now msg).messages)
    then (let (b', batch) = do_flush_locked (buffer b now msg) in (b', invoked batch))
    else (buffer b now msg, none)

-- `ForceFlush`, up to `invokeFlush`.
unfoldable pub force_flush : Batcher → Batcher × Option (List ChatMessage)
force_flush b = let (b', batch) = drain b in (b', some batch)

-- `timerFlush`, up to `invokeFlush`.
unfoldable pub timer_flush : Batcher → Batcher × Option (List ChatMessage)
timer_flush b = let (b', batch) = do_flush_locked b in (b', invoked batch)

-- The batcher with the goroutines in `invokeFlush`: the batches that wait for `flushMu`, and those that
-- `onFlush` has been called with, in the order of the calls.
pub record Flusher : Type 0 where
  pub batcher : Batcher
  pub waiting : List (List ChatMessage)
  pub called : List (List ChatMessage)

-- A method that has taken a batch waits with it.
unfoldable pub wait_with :
    Option (List ChatMessage) → List (List ChatMessage) → List (List ChatMessage)
wait_with none waiting = waiting
wait_with (some batch) waiting = batch ∷ waiting

-- The batch at the place `i` and the others.
unfoldable pub pick :
    ℕ → List (List ChatMessage) → Option (List ChatMessage × List (List ChatMessage))
pick i [] = none
pick zero (batch ∷ rest) = some (batch, rest)
pick (suc i) (batch ∷ rest) = elim (pick i rest) [
  | none ↦ none
  | some (found, others) ↦ some (found, batch ∷ others)
]

-- `invokeFlush` of the waiting goroutine that gets `flushMu`, the one at the place `i`.
unfoldable pub invoke_flush : Flusher → ℕ → Flusher
invoke_flush f i = elim (pick i f.waiting) [
  | none ↦ f
  | some (batch, others) ↦ record f { waiting = others; called = f.called ++ (batch ∷ []) }
]
