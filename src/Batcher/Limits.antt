-- ===== src/Batcher/Limits.antt =====
-- internal/ai/batcher.go: how large the batches are, and what happens after `Stop`.
use distributed_multi_agent.Base.{
  ◌≤◌, ◌≡◌, ◌⊎◌, refl, sym, ap, subst, ◌∙◌, List, [], ◌∷◌, true, Option, none, some, arith, All,
  length, length-append, inl, inr,
}
use distributed_multi_agent.Batcher.Buffer.{
  Event, IsValid, add_cases, adds, batched, fires, flush_cases, forces, run, step, step-IsValid,
  stops,
}
use distributed_multi_agent.Batcher.{
  Batcher, ChatMessage, buffer, capacity_trigger, drain, force_flush, stop, timer_flush,
}

-- A batch within the capacity.
abbrev pub IsSmall : List ChatMessage → Type 0
IsSmall batch = length batch ≤ capacity_trigger

batched-IsSmall :
    (r : Batcher × Option (List ChatMessage)) (rest : List (List ChatMessage))
    → (r.1 ≡ none) ⊎ ((batch : List ChatMessage) × (r.1 ≡ some batch) × IsSmall batch)
    → All IsSmall rest
    → All IsSmall (batched r.1 rest)
unfolding batched
batched-IsSmall (b, none) rest small all = all
batched-IsSmall (b, some batch) rest (inl e) all = absurd (ground arith)
batched-IsSmall (b, some batch) rest (inr (batch', e, small)) all = (ground (arith, small), all)

-- What a step gives out is within the capacity.
abbrev IsBounded : Batcher × Option (List ChatMessage) → Type 0
IsBounded r = (r.1 ≡ none) ⊎ ((batch : List ChatMessage) × (r.1 ≡ some batch) × IsSmall batch)

flush-IsBounded : (b : Batcher) → IsSmall b.messages → IsBounded (timer_flush b)
flush-IsBounded b small = elim (flush_cases b) [
  | inl (empty, e) ↦ inl (ap (λ r. r.1) e)
  | inr (filled, e) ↦ inr (b.messages, ap (λ r. r.1) e, small)
]

step-IsBounded : (b : Batcher) (e : Event) → IsValid b → IsBounded (step b e)
unfolding step force_flush drain buffer
step-IsBounded b (adds now msg) v = elim (add_cases b now msg) [
  | inl (off, e) ↦ inl (ap (λ r. r.1) e)
  | inr (inl (on, room, e)) ↦ inl (ap (λ r. r.1) e)
  | inr (inr (on, e)) ↦ subst IsBounded (sym e) (
      flush-IsBounded (buffer b now msg)
        (omega (arith, v.below, length-append b.messages (msg ∷ []))))
]
step-IsBounded b forces v = inr (b.messages, refl, omega (arith, v.below))
step-IsBounded b fires v = flush-IsBounded b (omega (arith, v.below))
step-IsBounded b stops v = inl refl

-- From a valid batcher, no batch that is taken holds more than 15 messages.
pub run-IsSmall : (b : Batcher) (es : List Event) → IsValid b → All IsSmall (run b es).1
unfolding run
run-IsSmall b [] v = tt
run-IsSmall b (e ∷ es) v =
    batched-IsSmall (step b e) (run (step b e).0 es).1 (step-IsBounded b e v)
      (run-IsSmall (step b e).0 es (step-IsValid b e v))

-- One empty batch for each press of the button.
abbrev pub forced : List Event → List (List ChatMessage)
forced [] = []
forced (adds now msg ∷ es) = forced es
forced (forces ∷ es) = [] ∷ forced es
forced (fires ∷ es) = forced es
forced (stops ∷ es) = forced es

stopped_step :
    (b : Batcher) (e : Event) (es : List Event)
    → b.stopped ≡ true
    → b.messages ≡ []
    → ((step b e).0.stopped ≡ true)
      × ((step b e).0.messages ≡ [])
      × (batched (step b e).1 (forced es) ≡ forced (e ∷ es))
unfolding step force_flush drain stop batched
stopped_step b (adds now msg) es off empty = elim (add_cases b now msg) [
  | inl (off', e) ↦ ground arith
  | inr (inl (on, room, e)) ↦ absurd (ground arith)
  | inr (inr (on, e)) ↦ absurd (ground arith)
]
stopped_step b forces es off empty = ground arith
stopped_step b fires es off empty = elim (flush_cases b) [
  | inl (empty', e) ↦ ground arith
  | inr (filled, e) ↦ absurd (ground arith)
]
stopped_step b stops es off empty = (refl, refl, refl)

stopped_run :
    (b : Batcher) (es : List Event)
    → b.stopped ≡ true
    → b.messages ≡ []
    → ((run b es).0.messages ≡ []) × ((run b es).1 ≡ forced es)
unfolding run
stopped_run b [] off empty = (empty, refl)
stopped_run b (e ∷ es) off empty =
    let (off', empty', same) = stopped_step b e es off empty in
    let (left, batches) = stopped_run (step b e).0 es off' empty' in
    (left, ap (λ rest. batched (step b e).1 rest) batches ∙ same)

-- After `Stop` nothing is ever buffered again, and only `ForceFlush` takes a batch, an empty one.
pub run-stop :
    (b : Batcher) (es : List Event)
    → ((run (stop b) es).0.messages ≡ []) × ((run (stop b) es).1 ≡ forced es)
unfolding stop
run-stop b es = stopped_run (stop b) es refl refl
