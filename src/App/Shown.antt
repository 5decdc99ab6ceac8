-- ===== src/App/Shown.antt =====
-- cmd/main.go: what the browser shows of the messages that come from the room.
use distributed_multi_agent.App.{
  App, accept_message, ai_message_from_types, broadcast_diagnostics, note_refusal, refuse,
  remember_message, route, show,
}
use distributed_multi_agent.Base.{
  ℕ, ◌+◌, ◌≡◌, refl, ap, ◌∙◌, inl, inr, List, [], ◌∷◌, ◌++◌, Bool, Option, none, some, arith,
  if◌then◌else◌, Bytes, bytes, Bytes-discrete, ℕ_discrete, Bool-cases, Option-cases,
}
use distributed_multi_agent.Batcher.{ChatMessage}
use distributed_multi_agent.Browser.{
  WsEnvelope, diagnostics, diagnostics_of, envelope_from_message, refused_trace, taken_trace,
  trace_envelopes,
}
use distributed_multi_agent.Chat.{Ledger, add_with_reason}
use distributed_multi_agent.Clock.{VectorClock}
use distributed_multi_agent.Room.{Room}
use distributed_multi_agent.Types.{Message}
use distributed_multi_agent.Unicode.{Unicode}
use distributed_multi_agent.Validate.{eqb}

-- The chat messages among the envelopes, counted.
unfoldable pub chats : List WsEnvelope → ℕ
chats [] = 0
chats (env ∷ envs) = (if eqb env.kind (bytes "chat") then 1 else 0) + chats envs

chats-append : (xs ys : List WsEnvelope) → chats (xs ++ ys) ≡ chats xs + chats ys
unfolding chats
chats-append [] ys = omega arith
chats-append (x ∷ xs) ys = omega (arith, chats-append xs ys)

chats-diagnostics :
    (l : Option Ledger) (vc : Option VectorClock) (room : Option Room)
    → chats (diagnostics l vc room) ≡ 0
unfolding chats diagnostics diagnostics_of Bytes-discrete ℕ_discrete
chats-diagnostics none vc room = refl
chats-diagnostics (some l) vc room = refl

module _ (u : Unicode) where
  chats-refused_trace :
      (msg : Message) (reason : Bytes) → chats (trace_envelopes (refused_trace u msg reason)) ≡ 0
  unfolding chats trace_envelopes refused_trace Bytes-discrete ℕ_discrete
  chats-refused_trace msg reason = refl

  chats-shown :
      (msg : Message) (self : Bool)
      → chats (envelope_from_message msg self ∷ trace_envelopes (taken_trace msg)) ≡ 1
  unfolding chats trace_envelopes taken_trace envelope_from_message Bytes-discrete ℕ_discrete
  chats-shown msg self = refl

  browser-route :
      (s : App) (cm : ChatMessage) (trigger_ai : Bool) (now : ℕ)
      → (route u s cm trigger_ai now).0.browser ≡ s.browser
  unfolding route remember_message
  browser-route s cm trigger_ai now = ground arith

  chats-broadcast_diagnostics :
      (s : App) → chats (broadcast_diagnostics s).browser ≡ chats s.browser
  unfolding broadcast_diagnostics
  chats-broadcast_diagnostics s = omega (
    arith,
    chats-append s.browser (diagnostics s.ledger s.vc s.room),
    chats-diagnostics s.ledger s.vc s.room,
  )

  chats-refuse :
      (s : App) (l : Ledger) (msg : Message) (reason : Bytes)
      → chats (refuse u s l msg reason).browser ≡ chats s.browser
  unfolding refuse
  chats-refuse s l msg reason =
      let trace = trace_envelopes (refused_trace u msg reason) in
      chats-broadcast_diagnostics
        (record s { ledger = some (note_refusal l reason); browser = s.browser ++ trace })
      ∙ omega (arith, chats-append s.browser trace, chats-refused_trace msg reason)

  chats-show :
      (s : App) (l : Ledger) (msg : Message) (self : Bool)
      → chats (show u s l msg self).browser ≡ chats s.browser + 1
  unfolding show
  chats-show s l msg self =
      let shown = envelope_from_message msg self ∷ trace_envelopes (taken_trace msg) in
      omega (arith, chats-append s.browser shown, chats-shown msg self)

  -- `acceptMessage` shows the browser one more chat message if it reports that it has taken the message,
  -- and none more if it reports that it has not, whatever the message and the state.
  pub shown_if_taken :
      (s : App) (msg : Option Message) (self trigger_ai : Bool) (now : ℕ)
      → chats (accept_message u s msg self trigger_ai now).0.browser
        ≡ chats s.browser + (if (accept_message u s msg self trigger_ai now).1.0 then 1 else 0)
  unfolding accept_message
  shown_if_taken s none self trigger_ai now = omega arith
  shown_if_taken s (some msg) self trigger_ai now = elim (Option-cases s.ledger) [
    | inl e ↦ ground arith
    | inr (l, e) ↦
        let (l', (taken, reason)) = add_with_reason u l (some msg) in
        elim (Bool-cases taken) [
          | inl t ↦
              let cm = ai_message_from_types msg in
              rw (e, accept_message, t)
                (chats-broadcast_diagnostics (route u (show u s l' msg self) cm trigger_ai now).0
                  ∙ ap chats (browser-route (show u s l' msg self) cm trigger_ai now)
                  ∙ chats-show s l' msg self)
          | inr t ↦ rw (e, accept_message, t) (omega (arith, chats-refuse s l' msg reason))
        ]
  ]
