-- ===== src/Batcher/Calls.antt =====
-- internal/ai/batcher.go: what `onFlush` is called with, while methods run and others wait for `flushMu`.
use distributed_multi_agent.Base.{
  ℕ, zero, suc, ◌≡◌, refl, subst, ap, ◌∙◌, List, [], ◌∷◌, ◌++◌, true, false, Option, none, some,
}
use distributed_multi_agent.Batcher.Batches.{given, joined, keeps_running, run_conserves}
use distributed_multi_agent.Batcher.Buffer.{Event, batched, run, step}
use distributed_multi_agent.Batcher.Limits.{forced, run-stop}
use distributed_multi_agent.Batcher.{
  Batcher, ChatMessage, Flusher, invoke_flush, pick, stop, wait_with,
}
use mathlib.Core.List.Perm
use mathlib.Core.List.{Perm, append_assoc, append-nil, perm_middle}

-- What happens: a method runs under `mu`, or a waiting goroutine gets `flushMu`.
pub data Move : Type 0 where
  method : Event → Move
  passes : ℕ → Move

unfoldable pub move : Flusher → Move → Flusher
move f (method e) =
    let (b', batch) = step f.batcher e in
    record f { batcher = b'; waiting = wait_with batch f.waiting }
move f (passes i) = invoke_flush f i

unfoldable pub moves : Flusher → List Move → Flusher
moves f [] = f
moves f (m ∷ ms) = moves (move f m) ms

-- The events of the methods among the moves.
abbrev pub methods : List Move → List Event
methods [] = []
methods (method e ∷ ms) = e ∷ methods ms
methods (passes i ∷ ms) = methods ms

-- A batcher with no goroutine in `invokeFlush`.
abbrev pub at_rest : Batcher → Flusher
at_rest b = record { batcher = b; waiting = []; called = [] }

-- Every batch that has been taken: passed to `onFlush` or waiting for it.
abbrev pub taken : Flusher → List (List ChatMessage)
taken f = f.called ++ f.waiting

-- The batch that has been picked with the others makes up all that waits.
abbrev IsPick :
    Option (List ChatMessage × List (List ChatMessage)) → List (List ChatMessage) → Type 0
IsPick none waiting = Unit {0}
IsPick (some (batch, others)) waiting = Perm (batch ∷ others) waiting

IsPick-behind :
    (x : List ChatMessage) (rest : List (List ChatMessage))
    (o : Option (List ChatMessage × List (List ChatMessage)))
    → IsPick o rest
    → IsPick (elim o [ none ↦ none | some (found, others) ↦ some (found, x ∷ others) ]) (x ∷ rest)
IsPick-behind x rest none p = tt
IsPick-behind x rest (some (found, others)) p =
    Perm.trans (Perm.swap x found others) (Perm.cons x p)

pick-IsPick : (i : ℕ) (waiting : List (List ChatMessage)) → IsPick (pick i waiting) waiting
unfolding pick
pick-IsPick i [] = tt
pick-IsPick zero (x ∷ rest) = Perm.refl _
pick-IsPick (suc i) (x ∷ rest) = IsPick-behind x rest (pick i rest) (pick-IsPick i rest)

-- The batcher is the same, and the batches that have been taken too, up to their order.
abbrev IsShuffle : Flusher → Flusher → Type 0
IsShuffle f' f = (f'.batcher ≡ f.batcher) × Perm (taken f') (taken f)

pass-IsShuffle :
    (f : Flusher) (o : Option (List ChatMessage × List (List ChatMessage)))
    → IsPick o f.waiting
    → IsShuffle
        (elim o [
          | none ↦ f
          | some (batch, others) ↦ record f { waiting = others; called = f.called ++ (batch ∷ []) }
        ])
        f
pass-IsShuffle f none p = (refl, Perm.refl _)
pass-IsShuffle f (some (batch, others)) p =
    (refl, rw (append_assoc f.called (batch ∷ []) others) (Perm.append_left f.called p))

invoke_flush-IsShuffle : (f : Flusher) (i : ℕ) → IsShuffle (invoke_flush f i) f
unfolding invoke_flush
invoke_flush-IsShuffle f i = pass-IsShuffle f (pick i f.waiting) (pick-IsPick i f.waiting)

wait_with-perm :
    (called waiting rest : List (List ChatMessage)) (batch : Option (List ChatMessage))
    → Perm ((called ++ wait_with batch waiting) ++ rest) ((called ++ waiting) ++ batched batch rest)
unfolding wait_with batched
wait_with-perm called waiting rest none = Perm.refl _
wait_with-perm called waiting rest (some batch) =
    Perm.trans (Perm.append_right rest (perm_middle called waiting))
      (Perm.symm (perm_middle (called ++ waiting) rest))

moves-taken :
    (f : Flusher) (ms : List Move)
    → ((moves f ms).batcher ≡ (run f.batcher (methods ms)).0)
      × Perm (taken (moves f ms)) (taken f ++ (run f.batcher (methods ms)).1)
unfolding moves move run
moves-taken f [] = (refl, rw (append-nil (taken f)) (Perm.refl _))
moves-taken f (method e ∷ ms) =
    let (same, perm) = moves-taken (move f (method e)) ms in
    (
      same,
      Perm.trans perm (
          wait_with-perm f.called f.waiting (run (step f.batcher e).0 (methods ms)).1
            (step f.batcher e).1),
    )
moves-taken f (passes i ∷ ms) =
    let (kept, shuffle) = invoke_flush-IsShuffle f i in
    let (same, perm) = moves-taken (invoke_flush f i) ms in
    (
      same ∙ ap (λ b. (run b (methods ms)).0) kept,
      Perm.trans perm (
          subst
            (λ b.
              Perm (taken (invoke_flush f i) ++ (run (invoke_flush f i).batcher (methods ms)).1)
                (taken f ++ (run b (methods ms)).1))
            kept (Perm.append_right (run (invoke_flush f i).batcher (methods ms)).1 shuffle)),
    )

-- No message is lost or doubled, however the methods and the calls of `onFlush` interleave: as long as
-- the batcher is not stopped, there are batches that, one after the other and followed by what is left
-- in the buffer, are the messages that were in the buffer and those that were added since, in their
-- order; and the batches that `onFlush` has been called with and those that still wait for `flushMu`
-- are exactly these, though the order of the calls may be another one.
pub calls_conserve :
    (b : Batcher) (ms : List Move)
    → b.stopped ≡ false
    → keeps_running (methods ms) ≡ true
    → (batches : List (List ChatMessage)) × Perm
        ((moves (at_rest b) ms).called ++ (moves (at_rest b) ms).waiting)
        batches
      × (joined batches ++ (moves (at_rest b) ms).batcher.messages
          ≡ b.messages ++ given (methods ms))
calls_conserve b ms on running =
    let (same, perm) = moves-taken (at_rest b) ms in
    (
      (run b (methods ms)).1,
      perm,
      ap (λ (x : Batcher). joined (run b (methods ms)).1 ++ x.messages) same
          ∙ run_conserves b (methods ms) on running,
    )

-- After `Stop` nothing is ever buffered again, and `onFlush` is called only with the batches that had
-- been taken and waited for `flushMu` at the time of `Stop`, and with an empty batch for each later
-- `ForceFlush`: the batches passed since and those that still wait are these, in some order. The calls
-- are counted from `Stop` on.
pub stop_silences :
    (f : Flusher) (ms : List Move)
    → f.called ≡ []
    → ((moves (record f { batcher = stop f.batcher }) ms).batcher.messages ≡ [])
      × Perm
          ((moves (record f { batcher = stop f.batcher }) ms).called
            ++ (moves (record f { batcher = stop f.batcher }) ms).waiting)
          (f.waiting ++ forced (methods ms))
stop_silences f ms fresh =
    let (same, perm) = moves-taken (record f { batcher = stop f.batcher }) ms in
    let (left, batches) = run-stop f.batcher (methods ms) in
    let started : taken f ≡ f.waiting = ap (λ c. c ++ f.waiting) fresh in
    (
      ap (λ (x : Batcher). x.messages) same ∙ left,
      subst (λ bs. Perm (taken (moves (record f { batcher = stop f.batcher }) ms)) bs)
          (ap (λ xs. xs ++ (run (stop f.batcher) (methods ms)).1) started
            ∙ ap (λ bs. f.waiting ++ bs) batches)
          perm,
    )
