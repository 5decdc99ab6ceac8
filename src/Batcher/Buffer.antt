-- ===== src/Batcher/Buffer.antt =====
-- internal/ai/batcher.go: how full the buffer gets, and its timers.
use distributed_multi_agent.Base.{
  ℕ, ◌+◌, ◌<◌, ◌≡◌, ◌⊎◌, refl, sym, ap, subst, List, [], ◌∷◌, Bool, true, false, Option, none, some,
  arith, length, length-append, leb, Bool-cases, inl, inr,
}
use distributed_multi_agent.Batcher.{
  Batcher, ChatMessage, add, buffer, capacity_trigger, do_flush_locked, drain, force_flush, invoked,
  stop, timer_flush,
}

-- What happens to a batcher: a message at a time, the button, a timer, the end.
pub data Event : Type 0 where
  adds : ℕ → ChatMessage → Event
  forces : Event
  fires : Event
  stops : Event

unfoldable pub step : Batcher → Event → Batcher × Option (List ChatMessage)
step b (adds now msg) = add b now msg
step b forces = force_flush b
step b fires = timer_flush b
step b stops = (stop b, none)

-- The batches that the methods take from the buffer, in this order.
unfoldable pub batched :
    Option (List ChatMessage) → List (List ChatMessage) → List (List ChatMessage)
batched none rest = rest
batched (some batch) rest = batch ∷ rest

unfoldable pub run : Batcher → List Event → Batcher × List (List ChatMessage)
run b [] = (b, [])
run b (e ∷ es) =
    let (b', batch) = step b e in let (b'', rest) = run b' es in (b'', batched batch rest)

-- Whether a timer is set.
abbrev pub is_set : Option ℕ → Bool
is_set none = false
is_set (some t) = true

-- The buffer is below its capacity, both timers are set exactly while it is not empty, and it is
-- empty after the end.
pub record IsValid (b : Batcher) : Type 0 where
  pub below : length b.messages < capacity_trigger
  pub idle : is_set b.idle_timer ≡ leb 1 (length b.messages)
  pub max : is_set b.max_timer ≡ leb 1 (length b.messages)
  pub ended : (b.stopped ≡ false) ⊎ (b.messages ≡ [])

IsValid-empty : (b : Batcher) (t : Bool) → IsValid (record (drain b).0 { stopped = t })
unfolding drain
IsValid-empty b t = record { below = omega arith; idle = refl; max = refl; ended = inr refl }

flush_messages :
    (b : Batcher) (msgs : List ChatMessage)
    → b.messages ≡ msgs
    → ((b.messages ≡ []) × (timer_flush b ≡ (b, none)))
      ⊎ ((0 < length b.messages) × (timer_flush b ≡ ((drain b).0, some b.messages)))
unfolding timer_flush do_flush_locked drain invoked
flush_messages b [] e = inl (e, ground arith)
flush_messages b (msg ∷ msgs) e = inr (ground arith, ground arith)

-- A timer that fires takes the buffer, if it holds something.
pub flush_cases :
    (b : Batcher)
    → ((b.messages ≡ []) × (timer_flush b ≡ (b, none)))
      ⊎ ((0 < length b.messages) × (timer_flush b ≡ ((drain b).0, some b.messages)))
flush_cases b = flush_messages b b.messages refl

buffer-IsValid :
    (b : Batcher) (now : ℕ) (msg : ChatMessage)
    → IsValid b
    → b.stopped ≡ false
    → length b.messages + 1 < capacity_trigger
    → IsValid (buffer b now msg)
unfolding buffer
buffer-IsValid b now msg v on room = record {
  below = omega (arith, length-append b.messages (msg ∷ []));
  idle = ground (arith, length-append b.messages (msg ∷ []));
  max = ground (arith, length-append b.messages (msg ∷ []), v.max);
  ended = inl on;
}

buffered : (b : Batcher) (now : ℕ) (msg : ChatMessage) → 0 < length (buffer b now msg).messages
unfolding buffer
buffered b now msg = omega (arith, length-append b.messages (msg ∷ []))

below_capacity :
    (b : Batcher) (now : ℕ) (msg : ChatMessage)
    → leb capacity_trigger (length (buffer b now msg).messages) ≡ false
    → length b.messages + 1 < capacity_trigger
unfolding buffer
below_capacity b now msg room = ground (arith, length-append b.messages (msg ∷ []))

-- `Add` drops the message, buffers it, or buffers it and takes the whole buffer.
pub add_cases :
    (b : Batcher) (now : ℕ) (msg : ChatMessage)
    → ((b.stopped ≡ true) × (add b now msg ≡ (b, none)))
      ⊎ ((b.stopped ≡ false)
          × (length b.messages + 1 < capacity_trigger)
          × (add b now msg ≡ (buffer b now msg, none)))
      ⊎ ((b.stopped ≡ false) × (add b now msg ≡ timer_flush (buffer b now msg)))
unfolding add timer_flush
add_cases b now msg = elim (Bool-cases b.stopped) [
  | inl off ↦ inl (off, ground arith)
  | inr on ↦ elim (Bool-cases (leb capacity_trigger (length (buffer b now msg).messages))) [
    | inl full ↦ inr (inr (on, ground arith))
    | inr room ↦ inr (inl (on, below_capacity b now msg room, ground arith))
  ]
]

flushed-IsValid : (b : Batcher) → (0 < length b.messages) ⊎ IsValid b → IsValid (timer_flush b).0
unfolding drain
flushed-IsValid b v = elim (flush_cases b) [
  | inr (filled, e) ↦ subst IsValid (sym (ap (λ r. r.0) e)) (IsValid-empty b b.stopped)
  | inl (empty, e) ↦
      subst IsValid (sym (ap (λ r. r.0) e))
        (elim v [ inl filled ↦ absurd (ground arith) | inr valid ↦ valid ])
]

pub step-IsValid : (b : Batcher) (e : Event) → IsValid b → IsValid (step b e).0
unfolding step force_flush stop drain
step-IsValid b (adds now msg) v = elim (add_cases b now msg) [
  | inl (off, e) ↦ subst IsValid (sym (ap (λ r. r.0) e)) v
  | inr (inl (on, room, e)) ↦
      subst IsValid (sym (ap (λ r. r.0) e)) (buffer-IsValid b now msg v on room)
  | inr (inr (on, e)) ↦
      subst IsValid (sym (ap (λ r. r.0) e))
        (flushed-IsValid (buffer b now msg) (inl (buffered b now msg)))
]
step-IsValid b forces v = IsValid-empty b b.stopped
step-IsValid b fires v = flushed-IsValid b (inr v)
step-IsValid b stops v = IsValid-empty b true

-- After any events a valid batcher is valid: the buffer holds fewer than 15 messages, and both timers are set exactly while it
-- is not empty, so that no message waits without a timer, and a stopped batcher holds no message.
pub run-IsValid : (b : Batcher) (es : List Event) → IsValid b → IsValid (run b es).0
unfolding run
run-IsValid b [] v = v
run-IsValid b (e ∷ es) v = run-IsValid (step b e).0 es (step-IsValid b e v)
