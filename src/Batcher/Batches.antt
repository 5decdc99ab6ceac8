-- ===== src/Batcher/Batches.antt =====
-- internal/ai/batcher.go: the batches that the methods take from the buffer.
use distributed_multi_agent.Base.{
  ℕ, ◌≡◌, refl, sym, ap, ◌∙◌, List, [], ◌∷◌, ◌++◌, Bool, true, false, Option, none, some, arith,
  inl, inr,
}
use distributed_multi_agent.Batcher.Buffer.{
  Event, add_cases, adds, batched, fires, flush_cases, forces, run, step, stops,
}
use distributed_multi_agent.Batcher.{
  Batcher, ChatMessage, add, buffer, do_flush_locked, drain, force_flush, timer_flush,
}
use mathlib.Core.List.{append_assoc, append-nil}

-- No event ends the batcher.
abbrev pub keeps_running : List Event → Bool
keeps_running [] = true
keeps_running (adds now msg ∷ es) = keeps_running es
keeps_running (forces ∷ es) = keeps_running es
keeps_running (fires ∷ es) = keeps_running es
keeps_running (stops ∷ es) = false

-- The messages that the events add.
abbrev pub given : List Event → List ChatMessage
given [] = []
given (adds now msg ∷ es) = msg ∷ given es
given (forces ∷ es) = given es
given (fires ∷ es) = given es
given (stops ∷ es) = given es

abbrev pub joined : List (List ChatMessage) → List ChatMessage
joined [] = []
joined (batch ∷ batches) = batch ++ joined batches

-- What a step gives out, and what it leaves in the buffer.
abbrev out : Batcher × Option (List ChatMessage) → List ChatMessage
out (b, none) = b.messages
out (b, some batch) = batch ++ b.messages

out-timer_flush : (b : Batcher) → out (timer_flush b) ≡ b.messages
unfolding drain
out-timer_flush b = elim (flush_cases b) [
  | inl (empty, e) ↦ ap out e
  | inr (filled, e) ↦ ap out e ∙ append-nil b.messages
]

out-add :
    (b : Batcher) (now : ℕ) (msg : ChatMessage)
    → b.stopped ≡ false
    → out (add b now msg) ≡ b.messages ++ (msg ∷ [])
unfolding buffer
out-add b now msg on = elim (add_cases b now msg) [
  | inl (off, e) ↦ absurd (ground arith)
  | inr (inl (on', room, e)) ↦ ap out e
  | inr (inr (on', e)) ↦ ap out e ∙ out-timer_flush (buffer b now msg)
]

out-step :
    (b : Batcher) (e : Event) (es : List Event)
    → b.stopped ≡ false
    → keeps_running (e ∷ es) ≡ true
    → out (step b e) ++ given es ≡ b.messages ++ given (e ∷ es)
unfolding step force_flush drain
out-step b (adds now msg) es on k =
    ap (λ xs. xs ++ given es) (out-add b now msg on) ∙ append_assoc b.messages (msg ∷ []) (given es)
out-step b forces es on k = ap (λ xs. xs ++ given es) (append-nil b.messages)
out-step b fires es on k = ap (λ xs. xs ++ given es) (out-timer_flush b)
out-step b stops es on k = absurd (ground arith)

timer_flush_stopped : (b : Batcher) → (timer_flush b).0.stopped ≡ b.stopped
unfolding timer_flush do_flush_locked drain
timer_flush_stopped b = ground arith

add_stopped : (b : Batcher) (now : ℕ) (msg : ChatMessage) → (add b now msg).0.stopped ≡ b.stopped
unfolding buffer
add_stopped b now msg = elim (add_cases b now msg) [
  | inl (off, e) ↦ ap (λ r. r.0.stopped) e
  | inr (inl (on, room, e)) ↦ ap (λ r. r.0.stopped) e
  | inr (inr (on, e)) ↦ ap (λ r. r.0.stopped) e ∙ timer_flush_stopped (buffer b now msg)
]

step_on :
    (b : Batcher) (e : Event) (es : List Event)
    → keeps_running (e ∷ es) ≡ true
    → ((step b e).0.stopped ≡ b.stopped) × (keeps_running es ≡ true)
unfolding step force_flush drain
step_on b (adds now msg) es k = (add_stopped b now msg, k)
step_on b forces es k = (refl, k)
step_on b fires es k = (timer_flush_stopped b, k)
step_on b stops es k = absurd (ground arith)

joined-batched :
    (r : Batcher × Option (List ChatMessage)) (rest : List (List ChatMessage))
    (left added : List ChatMessage)
    → joined rest ++ left ≡ r.0.messages ++ added
    → joined (batched r.1 rest) ++ left ≡ out r ++ added
unfolding batched
joined-batched (b, none) rest left added h = h
joined-batched (b, some batch) rest left added h =
    append_assoc batch (joined rest) left
    ∙ ap (λ xs. batch ++ xs) h
    ∙ sym (append_assoc batch b.messages added)

-- As long as the batcher is not stopped, the batches in the order in which they are taken, followed by
-- what is left in the buffer, are the messages that were in the buffer followed by those that were
-- added, in their order.
pub run_conserves :
    (b : Batcher) (es : List Event)
    → b.stopped ≡ false
    → keeps_running es ≡ true
    → joined (run b es).1 ++ (run b es).0.messages ≡ b.messages ++ given es
unfolding run
run_conserves b [] on k = sym (append-nil b.messages)
run_conserves b (e ∷ es) on k =
    let (same, k') = step_on b e es k in
    joined-batched (step b e) (run (step b e).0 es).1 (run (step b e).0 es).0.messages (given es)
      (run_conserves (step b e).0 es (same ∙ on) k')
    ∙ out-step b e es on k
