-- ===== src/Orchestrator/Turns/Runs.antt =====
-- internal/ai/orchestrator.go: any sequence of calls on a persona. A turn that `Process` or
-- `ForceReply` starts may end after any number of other calls. The storing of memories after a reply,
-- which leaves everything else as it is, is not among them.
use distributed_multi_agent.Base.{
  ℕ, ◌≤◌, ◌≡◌, refl, ◌⊎◌, inl, inr, List, [], ◌∷◌, ◌++◌, Bool, true, Option, none, some, arith,
  length, Bytes, All, Bool-cases, Option-cases,
}
use distributed_multi_agent.Batcher.{ChatMessage}
use distributed_multi_agent.Orchestrator.Float.{Float}
use distributed_multi_agent.Orchestrator.History.Kept.{length-compact_history}
use distributed_multi_agent.Orchestrator.History.{compact_history, max_history}
use distributed_multi_agent.Orchestrator.Score.{
  Orchestrator, Persona, add_to_history, rewrite_at_all, set_persona, set_thinking_callback, stop,
}
use distributed_multi_agent.Orchestrator.Turns.{
  Outcome, Turn, filter_own, finish, force_reply, panicked, process, publish, replied,
  reply_or_fallback, set_model, silent, take_in,
}
use distributed_multi_agent.Orchestrator.Words.{strip_name_prefix}
use distributed_multi_agent.Unicode.{Unicode}
use distributed_multi_agent.Validate.{is_empty}

-- A call, with its arguments, the time, and, at the end of a turn, what the language model replied.
pub data Call : Type 0 where
  added : ChatMessage → Call
  batch : ℕ → List ChatMessage → Call
  forced : Call
  ended : ℕ → Turn → Bytes → Call
  fell_back : Option Bytes → Call
  renamed : Persona → Call
  watched : Bool → Call
  left : Call

module _ (u : Unicode) (f : Float) (on_reply : Bytes → Bytes → ChatMessage) where
  unfoldable pub step : Orchestrator → Call → Orchestrator × Outcome
  step o (added msg) = (add_to_history u o msg, silent)
  step o (batch now msgs) = ((process u f o now msgs).0, silent)
  step o forced = ((force_reply u f o).0, silent)
  step o (ended now t reply) = finish u f on_reply o now t reply
  step o (fell_back m) = (set_model u f o m, silent)
  step o (renamed p) = (set_persona o p, silent)
  step o (watched fn) = (set_thinking_callback o fn, silent)
  step o left = (stop o, silent)

  unfoldable pub run : Orchestrator → List Call → Orchestrator × List Outcome
  run o [] = (o, [])
  run o (c ∷ cs) = let (o', out) = step o c in let (o'', outs) = run o' cs in (o'', out ∷ outs)

  abbrev pub IsBounded : Orchestrator → Type 0
  IsBounded o = length o.history ≤ max_history

  compact_history-small : (h : List ChatMessage) → length (compact_history u h) ≤ max_history
  compact_history-small h = ground (arith, length-compact_history u h)

  process-IsBounded :
      (o : Orchestrator) (now : ℕ) (msgs : List ChatMessage)
      → IsBounded o
      → IsBounded (process u f o now msgs).0
  unfolding process take_in
  process-IsBounded o now msgs h =
      ground (arith, compact_history-small (o.history ++ filter_own o.persona.name msgs))

  force_reply-IsBounded : (o : Orchestrator) → IsBounded o → IsBounded (force_reply u f o).0
  unfolding force_reply
  force_reply-IsBounded o h = ground (arith, compact_history-small o.history)

  history-rewrite_at_all :
      (o : Orchestrator) (now : ℕ) (reply : Bytes)
      → (rewrite_at_all u o now reply).0.history ≡ o.history
  unfolding rewrite_at_all
  history-rewrite_at_all o now reply = ground arith

  publish-IsBounded :
      (o : Orchestrator) (now : ℕ) (t : Turn) (s : Bytes)
      → IsBounded o
      → IsBounded (publish u f on_reply o now t s).0
  unfolding publish
  publish-IsBounded o now t s h = elim (Bool-cases (is_empty (rewrite_at_all u o now s).1)) [
    | inl e ↦ ground (arith, history-rewrite_at_all o now s)
    | inr e ↦ rw (e, publish) (compact_history-small _)
  ]

  finish-IsBounded :
      (o : Orchestrator) (now : ℕ) (t : Turn) (reply : Bytes)
      → IsBounded o
      → IsBounded (finish u f on_reply o now t reply).0
  unfolding finish
  finish-IsBounded o now t reply h =
      elim (Option-cases (strip_name_prefix u (reply_or_fallback u f t reply) t.persona.name)) [
        | inl e ↦ ground arith
        | inr (s, e) ↦ ground (arith, publish-IsBounded o now t s h)
      ]

  step-IsBounded : (o : Orchestrator) (c : Call) → IsBounded o → IsBounded (step o c).0
  unfolding step add_to_history set_model set_persona set_thinking_callback stop
  step-IsBounded o (added msg) h = compact_history-small (o.history ++ (msg ∷ []))
  step-IsBounded o (batch now msgs) h = process-IsBounded o now msgs h
  step-IsBounded o forced h = force_reply-IsBounded o h
  step-IsBounded o (ended now t reply) h = finish-IsBounded o now t reply h
  step-IsBounded o (fell_back none) h = h
  step-IsBounded o (fell_back (some m)) h = h
  step-IsBounded o (renamed p) h = h
  step-IsBounded o (watched fn) h = h
  step-IsBounded o left h = h

  -- After any sequence of calls the history has at most thirty messages, if it had at most thirty
  -- before them.
  pub run-IsBounded : (o : Orchestrator) (cs : List Call) → IsBounded o → IsBounded (run o cs).0
  unfolding run
  run-IsBounded o [] h = h
  run-IsBounded o (c ∷ cs) h = run-IsBounded (step o c).0 cs (step-IsBounded o c h)

  -- No reply.
  abbrev pub IsSilent : Outcome → Type 0
  IsSilent silent = Unit {0}
  IsSilent (replied s m) = ⊥
  IsSilent panicked = Unit {0}

  finish-stopped_cases :
      (o : Orchestrator) (now : ℕ) (t : Turn) (reply : Bytes)
      → o.stopped ≡ true
      → (finish u f on_reply o now t reply ≡ (o, silent))
        ⊎ (finish u f on_reply o now t reply ≡ (o, panicked))
  unfolding finish
  finish-stopped_cases o now t reply h =
      elim (Bool-cases (is_empty (reply_or_fallback u f t reply))) [
        | inl e ↦ inl (rw (e, finish) refl)
        | inr e ↦
            elim (Option-cases
              (strip_name_prefix u (reply_or_fallback u f t reply) t.persona.name)) [
                | inl e' ↦ inr (rw (e, e', finish) refl)
                | inr (s, e') ↦ inl (rw (e, e', finish) (ground arith))
              ]
      ]

  finish-stopped :
      (o : Orchestrator) (now : ℕ) (t : Turn) (reply : Bytes)
      → o.stopped ≡ true
      → ((finish u f on_reply o now t reply).0 ≡ o) × IsSilent (finish u f on_reply o now t reply).1
  finish-stopped o now t reply h = elim (finish-stopped_cases o now t reply h) [
    | inl e ↦ rw e (refl, tt)
    | inr e ↦ rw e (refl, tt)
  ]

  step-stopped :
      (o : Orchestrator) (c : Call)
      → o.stopped ≡ true
      → ((step o c).0.stopped ≡ true) × IsSilent (step o c).1
  unfolding step add_to_history set_model set_persona set_thinking_callback stop process force_reply
  step-stopped o (added msg) h = (h, tt)
  step-stopped o (batch now msgs) h = (ground arith, tt)
  step-stopped o forced h = (ground arith, tt)
  step-stopped o (ended now t reply) h =
      let (same_state, quiet) = finish-stopped o now t reply h in (ground arith, quiet)
  step-stopped o (fell_back none) h = (h, tt)
  step-stopped o (fell_back (some m)) h = (h, tt)
  step-stopped o (renamed p) h = (h, tt)
  step-stopped o (watched fn) h = (h, tt)
  step-stopped o left h = (refl, tt)

  -- A persona that has been stopped stays stopped and publishes nothing, whatever calls follow; turns
  -- that were started before it was stopped end without a reply.
  pub run-stopped :
      (o : Orchestrator) (cs : List Call)
      → o.stopped ≡ true
      → ((run o cs).0.stopped ≡ true) × All IsSilent (run o cs).1
  unfolding run
  run-stopped o [] h = (h, tt)
  run-stopped o (c ∷ cs) h =
      let (still, quiet) = step-stopped o c h in
      let (after, rest) = run-stopped (step o c).0 cs still in (after, (quiet, rest))
