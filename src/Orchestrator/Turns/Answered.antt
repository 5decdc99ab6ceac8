-- ===== src/Orchestrator/Turns/Answered.antt =====
-- internal/ai/orchestrator.go: who gets an answer from a persona.
use distributed_multi_agent.Base.{
  ℕ, ◌≤◌, ◌≡◌, subst, refl, inl, inr, List, [], ◌∷◌, ◌++◌, true, false, not, ◌&&◌, ◌||◌, Option,
  none, some, arith, length, length-append, Option-cases,
}
use distributed_multi_agent.Batcher.{ChatMessage}
use distributed_multi_agent.Orchestrator.Float.{Float, IsIeee}
use distributed_multi_agent.Orchestrator.History.Kept.{length-compact_history}
use distributed_multi_agent.Orchestrator.History.{trailing_ai}
use distributed_multi_agent.Orchestrator.Prompts.{latest_of}
use distributed_multi_agent.Orchestrator.Score.Chain.{chain_ends}
use distributed_multi_agent.Orchestrator.Score.{Orchestrator, should_respond, trigger}
use distributed_multi_agent.Orchestrator.Turns.{
  Turn, decide, explicit_mention, filter_own, process, start_turn, take_in,
}
use distributed_multi_agent.Unicode.{Unicode}

length-latest_of : (ms : List ChatMessage) (m : ChatMessage) → latest_of ms ≡ some m → 1 ≤ length ms
unfolding latest_of
length-latest_of [] m h = absurd (ground arith)
length-latest_of (x ∷ ms) m h = omega arith

module _ (u : Unicode) where
  length-take_in :
      (o : Orchestrator) (msgs : List ChatMessage)
      → 1 ≤ length (filter_own o.persona.name msgs)
      → 1 ≤ length (take_in u o msgs).history
  unfolding take_in
  length-take_in o msgs some_left =
      let filtered = filter_own o.persona.name msgs in
      ground
        (arith, length-compact_history u (o.history ++ filtered), length-append o.history filtered)

  module _ (f : Float) where
    should_respond_human :
        (o : Orchestrator) (now : ℕ) (latest : ChatMessage) (depth : ℕ)
        → latest.is_ai ≡ false
        → (should_respond f u o now latest depth true).0 ≡ true
    unfolding should_respond trigger
    should_respond_human o now latest depth human = ground arith

    decide_human :
        (o : Orchestrator) (now : ℕ) (latest : ChatMessage)
        → latest.is_ai ≡ false
        → explicit_mention u o latest ≡ true
        → 1 ≤ length o.history
        → decide u f o now latest ≡ some (start_turn o latest true false)
    unfolding decide
    decide_human o now latest human mentioned long =
        rw (mentioned, decide, human)
          (ground (arith, should_respond_human o now latest (trailing_ai u o.history) human))

    -- If the last message of a batch, the persona's own ones left out, is a human one that mentions the
    -- persona, then `Process` of a persona that has not been stopped starts a turn for this message, in
    -- which it must reply: whatever the history is, however long a chain of AI messages the history
    -- ends with, and whenever the persona last spoke.
    pub human_mention_answered :
        (o : Orchestrator) (now : ℕ) (msgs : List ChatMessage) (latest : ChatMessage)
        → o.stopped ≡ false
        → latest_of (filter_own o.persona.name msgs) ≡ some latest
        → latest.is_ai ≡ false
        → explicit_mention u o latest ≡ true
        → (t : Turn) × ((process u f o now msgs).1 ≡ some t)
          × (t.must_reply ≡ true)
          × (t.latest ≡ latest)
    unfolding process explicit_mention take_in start_turn
    human_mention_answered o now msgs latest running newest human mentioned =
        let o' = take_in u o msgs in
        let some_left =
          length-take_in o msgs (length-latest_of (filter_own o.persona.name msgs) latest newest) in
        let decided = decide_human o' now latest human mentioned some_left in
        (start_turn o' latest true false, ground arith, refl, refl)

    decide_turn :
        (o : Orchestrator) (now : ℕ) (latest : ChatMessage) (t : Turn)
        → decide u f o now latest ≡ some t
        → ((should_respond f u o now latest
              (trailing_ai u o.history)
              (explicit_mention u o latest)).0
            ≡ true)
          × (some (
                start_turn o latest
                  (explicit_mention u o latest || (latest.mention_all && not latest.is_ai))
                  false)
              ≡ some t)
    unfolding decide
    decide_turn o now latest t h = ground arith

    -- A turn of a persona that has taken in `o.history`: it should respond, and when it must.
    abbrev IsEligible : Orchestrator → ℕ → Turn → Type 0
    IsEligible o now t =
        ((should_respond f u o now t.latest (trailing_ai u o.history)
            (explicit_mention u o t.latest)).0
          ≡ true)
        × (t.must_reply
            ≡ (explicit_mention u o t.latest || (t.latest.mention_all && not t.latest.is_ai)))

    abbrev IsEligibleIfAny : Orchestrator → ℕ → Option Turn → Type 0
    IsEligibleIfAny o now none = Unit {0}
    IsEligibleIfAny o now (some t) = IsEligible o now t

    process-IsEligible :
        (o : Orchestrator) (now : ℕ) (msgs : List ChatMessage) (t : Turn)
        → (process u f o now msgs).1 ≡ some t
        → IsEligible (take_in u o msgs) now t
    unfolding process start_turn
    process-IsEligible o now msgs t h =
        elim (Option-cases (latest_of (filter_own o.persona.name msgs))) [
          | inl e ↦ absurd (ground arith)
          | inr (latest, e) ↦
              let (eligible, made) = decide_turn (take_in u o msgs) now latest t (ground arith) in
              subst (IsEligibleIfAny (take_in u o msgs) now) made (eligible, refl)
        ]

    -- Once six AI messages stand at the end of the history with the new batch, `Process` starts a turn
    -- only for a human message that mentions the persona or everybody, and the persona must then reply.
    pub chain_ends_turns :
        IsIeee f
        → (o : Orchestrator) (now : ℕ) (msgs : List ChatMessage) (t : Turn)
        → 6 ≤ trailing_ai u (take_in u o msgs).history
        → (process u f o now msgs).1 ≡ some t
        → (t.latest.is_ai ≡ false)
          × ((explicit_mention u o t.latest || t.latest.mention_all) ≡ true)
          × (t.must_reply ≡ true)
    unfolding explicit_mention take_in
    chain_ends_turns ieee o now msgs t long h =
        let (eligible, must) = process-IsEligible o now msgs t h in
        let (human, called) =
          chain_ends f ieee u (take_in u o msgs) now t.latest _ _ long eligible in
        (human, called, ground arith)
