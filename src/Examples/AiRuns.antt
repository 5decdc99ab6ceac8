-- ===== src/Examples/AiRuns.antt =====
-- internal/ai/batcher.go, internal/ai/memory.go and internal/types/mention.go on small inputs.
use distributed_multi_agent.Base.{
  ◌≡◌, ◌↔◌, inl, refl, List, [], ◌∷◌, ◌++◌, map, false, none, some, arith, Bytes, bytes, ok,
}
use distributed_multi_agent.Batcher.Batches.{given, joined}
use distributed_multi_agent.Batcher.Buffer.{
  Event, IsValid, adds, batched, fires, forces, run, run-IsValid, step,
}
use distributed_multi_agent.Batcher.Calls.{
  Move, at_rest, calls_conserve, method, methods, move, moves, passes, stop_silences,
}
use distributed_multi_agent.Batcher.Limits.{forced}
use distributed_multi_agent.Batcher.{
  ChatMessage, Flusher, invoke_flush, pick, wait_with, add, buffer, do_flush_locked, drain,
  force_flush, invoked, new_batcher, stop, timer_flush,
}
use distributed_multi_agent.Examples.Sample.{ascii, chat_code}
use distributed_multi_agent.Memory.Window.{last, remember_all, remember_all-last}
use distributed_multi_agent.Memory.{Disk, Memory, MemoryStore, append_memory}
use distributed_multi_agent.Mention.Names.{normalize_mentions_lem, wanted}
use distributed_multi_agent.Mention.{mention_before, normalize_loop, normalize_mentions}
use mathlib.Core.List.{Mem, Nodup, Perm}

abbrev hello : ChatMessage
hello = record {
  id = bytes "m1";
  sender_id = bytes "alice";
  sender_name = bytes "alice";
  content = bytes "hello";
  is_ai = false;
  mentions = [];
  mention_all = false;
  vector_clock = [];
}

-- Two messages, the idle timer, one more message, and the button twice.
abbrev events : List Event
events = adds 1 hello ∷ adds 2 hello ∷ fires ∷ adds 9 hello ∷ forces ∷ forces ∷ []

unfoldable batch_code : Unit {0}
unfolding run step batched add buffer do_flush_locked drain force_flush invoked new_batcher stop
    timer_flush move moves wait_with pick invoke_flush
batch_code = tt

batches : (run new_batcher events).1 ≡ (hello ∷ hello ∷ []) ∷ (hello ∷ []) ∷ [] ∷ []
unfolding batch_code
batches = refl

new_batcher-IsValid : IsValid new_batcher
unfolding batch_code
new_batcher-IsValid = record { below = omega arith; idle = refl; max = refl; ended = inl refl }

starts_running : new_batcher.stopped ≡ false
unfolding batch_code
starts_running = refl

-- Two goroutines wait, and the one that came later gets `flushMu` first.
abbrev overtaking : List Move
overtaking =
    method (adds 1 hello)
    ∷ method fires
    ∷ method forces
    ∷ passes 0
    ∷ method (adds 2 hello)
    ∷ passes 0
    ∷ []

overtaken : (moves (at_rest new_batcher) overtaking).called ≡ [] ∷ (hello ∷ []) ∷ []
unfolding batch_code
overtaken = refl

calls_conserve_example :
    (batches : List (List ChatMessage)) × Perm
      ((moves (at_rest new_batcher) overtaking).called
        ++ (moves (at_rest new_batcher) overtaking).waiting)
      batches
    × (joined batches ++ (moves (at_rest new_batcher) overtaking).batcher.messages
        ≡ new_batcher.messages ++ given (methods overtaking))
calls_conserve_example = calls_conserve new_batcher overtaking starts_running refl

run-IsValid_example : IsValid (run new_batcher events).0
run-IsValid_example = run-IsValid new_batcher events new_batcher-IsValid

-- A batcher with a batch that waits, which is then stopped.
abbrev busy : Flusher
busy = moves (at_rest new_batcher) (method (adds 1 hello) ∷ method fires ∷ [])

busy_fresh : busy.called ≡ []
unfolding batch_code
busy_fresh = refl

stop_silences_example :
    ((moves (record busy { batcher = stop busy.batcher }) overtaking).batcher.messages ≡ [])
    × Perm
        ((moves (record busy { batcher = stop busy.batcher }) overtaking).called
          ++ (moves (record busy { batcher = stop busy.batcher }) overtaking).waiting)
        (busy.waiting ++ forced (methods overtaking))
stop_silences_example = stop_silences busy overtaking busy_fresh

-- A file that holds the fact of the last memory only, which is all that a store of one memory has.
abbrev read_back : Bytes → List Memory
read_back text = record { id = bytes "i"; fact = text; created_at = bytes "t" } ∷ []

abbrev facts : List Memory → Bytes
facts [] = []
facts (m ∷ ms) = m.fact

abbrev disk : Disk
disk = record { encode = λ ms. ok (facts ms); decode = read_back; write = λ old text. some text }

abbrev tea : Memory
tea = record { id = bytes "i"; fact = bytes "tea"; created_at = bytes "t" }

abbrev coffee : Memory
coffee = record { id = bytes "i"; fact = bytes "coffee"; created_at = bytes "t" }

abbrev store : MemoryStore
store = record { memories = tea ∷ []; path = bytes "memory.json"; max_items = 1; file = none }

remember_all-last_example :
    (remember_all disk store (coffee ∷ tea ∷ [])).memories
    ≡ last 1 (store.memories ++ (coffee ∷ tea ∷ []))
remember_all-last_example = remember_all-last disk store (coffee ∷ tea ∷ []) (omega arith)

decodes : disk.decode (bytes "coffee") ≡ append_memory store coffee
unfolding append_memory chat_code
decodes = refl

encodes : disk.encode (append_memory store coffee) ≡ ok (bytes "coffee")
unfolding append_memory chat_code
encodes = refl

names :
    normalize_mentions ascii (bytes "Bob" ∷ bytes "all" ∷ bytes "amy" ∷ bytes "bob" ∷ [])
    ≡ bytes "amy" ∷ bytes "Bob" ∷ []
unfolding chat_code normalize_mentions normalize_loop mention_before
names = refl

normalize_mentions_lem_example :
    Nodup (map ascii.to_lower (normalize_mentions ascii (bytes "Bob" ∷ bytes "bob" ∷ [])))
    × (Mem
          (bytes "bob")
          (map ascii.to_lower (normalize_mentions ascii (bytes "Bob" ∷ bytes "bob" ∷ [])))
        ↔ Mem (bytes "bob") (wanted ascii (bytes "Bob" ∷ bytes "bob" ∷ [])))
normalize_mentions_lem_example =
    normalize_mentions_lem ascii (bytes "Bob" ∷ bytes "bob" ∷ []) (bytes "bob")
