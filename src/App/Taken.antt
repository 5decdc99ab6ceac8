-- ===== src/App/Taken.antt =====
-- cmd/main.go: what `acceptMessage` makes of the ledger.
use distributed_multi_agent.App.Sync.{on_ledger}
use distributed_multi_agent.App.{
  App, accept_message, ai_message_from_types, broadcast_diagnostics, note_refusal, refuse,
  remember_message, route, show,
}
use distributed_multi_agent.Base.{
  ℕ, ◌≡◌, refl, ap, inl, inr, Bool, Option, none, some, arith, if◌then◌else◌, Bool-cases,
}
use distributed_multi_agent.Batcher.{ChatMessage}
use distributed_multi_agent.Chat.{Ledger, add_with_reason}
use distributed_multi_agent.Types.{Message}
use distributed_multi_agent.Unicode.{Unicode}

pub ledger-on_ledger :
    (s : App) (l : Ledger) (f : Ledger → Ledger)
    → s.ledger ≡ some l
    → (on_ledger s f).ledger ≡ some (f l)
unfolding on_ledger
ledger-on_ledger s l f has = rw (has, on_ledger) refl

pub on_ledger-none : (s : App) (f : Ledger → Ledger) → s.ledger ≡ none → on_ledger s f ≡ s
unfolding on_ledger
on_ledger-none s f has =
    ap (λ (o : Option Ledger). elim o [ none ↦ s | some l ↦ record s { ledger = some (f l) } ]) has

module _ (u : Unicode) where
  ledger-route :
      (s : App) (cm : ChatMessage) (trigger_ai : Bool) (now : ℕ)
      → (route u s cm trigger_ai now).0.ledger ≡ s.ledger
  unfolding route remember_message
  ledger-route s cm trigger_ai now = ground arith

  -- The ledger after a message that it was given: with the reject noted where it refused the message.
  abbrev pub ledger_after : Ledger → Message → Ledger
  ledger_after l msg =
      let (l', (taken, reason)) = add_with_reason u l (some msg) in
      if taken then l' else note_refusal l' reason

  -- `acceptMessage` gives a message to the ledger, and returns whether the ledger took it.
  pub accept_message-ledger_after :
      (s : App) (l : Ledger) (msg : Message) (self trigger_ai : Bool) (now : ℕ)
      → s.ledger ≡ some l
      → ((accept_message u s (some msg) self trigger_ai now).0.ledger ≡ some (ledger_after l msg))
        × ((accept_message u s (some msg) self trigger_ai now).1.0
            ≡ (add_with_reason u l (some msg)).1.0)
  unfolding accept_message refuse show broadcast_diagnostics
  accept_message-ledger_after s l msg self trigger_ai now has =
      let (l', (taken, reason)) = add_with_reason u l (some msg) in
      elim (Bool-cases taken) [
        | inl e ↦
            rw (has, accept_message, e)
              (ledger-route (show u s l' msg self) (ai_message_from_types msg) trigger_ai now, refl)
        | inr e ↦ rw (has, accept_message, e) (refl, refl)
      ]

  pub accept_message-none :
      (s : App) (msg : Message) (self trigger_ai : Bool) (now : ℕ)
      → s.ledger ≡ none
      → (accept_message u s (some msg) self trigger_ai now).0.ledger ≡ s.ledger
  unfolding accept_message
  accept_message-none s msg self trigger_ai now has = ground arith
