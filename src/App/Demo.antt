-- ===== src/App/Demo.antt =====
-- cmd/main.go: the messages of the attack demonstrations, which are signed by the node that runs them.
use distributed_multi_agent.App.{App, or_empty}
use distributed_multi_agent.Base.{
  ℕ, zero, suc, ◌+◌, ◌<◌, ◌≤◌, ◌≡◌, refl, ap, ◌∙◌, sym, List, [], ◌∷◌, ◌++◌, true, false, not,
  Option, none, some, arith, if◌then◌else◌, Bytes, bytes, GoMap, at, at-put_self, subst, Result, ok,
  err, decimal, Result-cases, Option-cases, Bool-cases, inl, inr, put, ◌==◌,
}
use distributed_multi_agent.Chat.History.{after, after_all, regression_refused, takes}
use distributed_multi_agent.Chat.{Ledger, own_clock}
use distributed_multi_agent.Clock.Merge.{at-copy}
use distributed_multi_agent.Clock.{VectorClock, copy, increment, snapshot}
use distributed_multi_agent.Crypto.{Identity, Libp2p, sign}
use distributed_multi_agent.Types.{Codec, Message, hash, new_message, signable_bytes}
use distributed_multi_agent.Unicode.{Unicode}

-- The clock of a demonstration: `cloneVC` of the override, where there is one.
unfoldable pub demo_clock : VectorClock → Option (GoMap ℕ) → GoMap ℕ
demo_clock vc none = snapshot vc
demo_clock vc (some m) = copy m

module _ (p : Libp2p) (c : Codec) where
  -- A message that is made but not yet signed, and its signature.
  unfoldable pub with_signature : Identity → Message → Result Message
  with_signature identity msg = elim (signable_bytes c msg) [
    | err e ↦ err e
    | ok text ↦ elim (sign p identity text) [
      | err e ↦ err e
      | ok sig ↦ ok (record msg { signature = sig })
    ]
  ]

  -- `signedDemoMessage` with a clock that replaces the node's own, or `none` for a nil one; `id` is the
  -- fresh UUID. The clock is increased also where the signing fails.
  unfoldable pub signed_demo_message :
      App → Bytes → Bytes → Bytes → Option (GoMap ℕ) → App × Result Message
  signed_demo_message s id sender_name content vc_override = elim s.identity [
    | none ↦ (s, err (bytes "room is not ready"))
    | some identity ↦ elim s.vc [
      | none ↦ (s, err (bytes "room is not ready"))
      | some vc ↦
          if not s.ready
          then (s, err (bytes "room is not ready"))
          else (let vc' = increment vc s.peer_id in
              let snap = demo_clock vc' vc_override in
              (
                record s { vc = some vc' },
                with_signature identity
                    (new_message id s.peer_id sender_name content [] false snap s.prev_hash false),
              ))
    ]
  ]

  module _ (encode : Message → Result Bytes) (uuid : ℕ → Bytes) where
    -- The message of one turn of the loop of `buildFloodDemoPayloads`, before it is signed.
    unfoldable pub flood_message : Bytes → ℕ → Bytes → Message
    flood_message peer_id i prev_hash =
        new_message (uuid i) peer_id (bytes "FloodDemo")
          (bytes "signed flood probe " ++ decimal (i + 1)) [] false (put [] peer_id (i + 1))
          prev_hash false

    -- The loop, from the turn `i` on, for `n` turns.
    unfoldable pub flood_payloads : ℕ → Identity → Bytes → ℕ → Bytes → Result (List Bytes)
    flood_payloads zero identity peer_id i prev_hash = ok []
    flood_payloads (suc n) identity peer_id i prev_hash =
        elim (with_signature identity (flood_message peer_id i prev_hash)) [
          | err e ↦ err e
          | ok msg ↦
              elim (encode
                (record msg { content = bytes "tampered flood probe " ++ decimal (i + 1) })) [
                  | err e ↦ err e
                  | ok raw ↦
                      elim (flood_payloads n identity peer_id (i + 1) (or_empty (hash c msg))) [
                        | err e ↦ err e
                        | ok rest ↦ ok (raw ∷ rest)
                      ]
                ]
        ]

    unfoldable pub build_flood_demo_payloads : App → ℕ → Result (List Bytes)
    build_flood_demo_payloads s n =
        if n == 0 then err (bytes "invalid flood count") else elim s.identity [
          | none ↦ err (bytes "room is not ready")
          | some identity ↦
              if not s.ready
              then err (bytes "room is not ready")
              else flood_payloads n identity s.peer_id 0 []
        ]

  -- The sender and the clock of the message that comes out, if one does.
  abbrev Keeps : Bytes → GoMap ℕ → Result Message → Type 0
  Keeps sender_id clock (err e) = Unit {0}
  Keeps sender_id clock (ok msg) = (msg.sender_id ≡ sender_id) × (msg.vector_clock ≡ clock)

  with_signature-Keeps :
      (identity : Identity) (msg : Message)
      → Keeps msg.sender_id msg.vector_clock (with_signature identity msg)
  unfolding with_signature
  with_signature-Keeps identity msg = elim (Result-cases (signable_bytes c msg)) [
    | inr (e, r) ↦ rw (r, with_signature) tt
    | inl (text, r) ↦ elim (Result-cases (sign p identity text)) [
      | inr (e, q) ↦ rw (r, q, with_signature) tt
      | inl (sig, q) ↦ rw (r, q, with_signature) (refl, refl)
    ]
  ]

  signed_demo_message-Keeps :
      (s : App) (id sender_name content : Bytes) (override : GoMap ℕ)
      → Keeps s.peer_id
          (copy (copy override))
          (signed_demo_message s id sender_name content (some override)).1
  unfolding signed_demo_message demo_clock new_message
  signed_demo_message-Keeps s id sender_name content override = elim (Option-cases s.identity) [
    | inl e ↦ rw (e, signed_demo_message) tt
    | inr (identity, e) ↦ elim (Option-cases s.vc) [
      | inl e' ↦ rw (e, e', signed_demo_message) tt
      | inr (vc, e') ↦ elim (Bool-cases (not s.ready)) [
        | inl off ↦ rw (e, e', off, signed_demo_message) tt
        | inr on ↦
            rw (e, e', on, signed_demo_message)
              (with_signature-Keeps identity (
                new_message id s.peer_id sender_name content [] false (copy override) s.prev_hash
                  false))
      ]
    ]
  ]

  -- A demonstration with a counter of its own choice silences the node that runs it: once a ledger has
  -- taken its message, it takes no message of that node with a positive own counter up to that number,
  -- whatever arrives in between.
  pub demo_silences :
      (u : Unicode) (s : App) (id sender_name content : Bytes) (n : ℕ) (prime : Message)
      (l : Ledger) (msgs : List Message) (late : Message)
      → (signed_demo_message s id sender_name content (some (put [] s.peer_id n))).1 ≡ ok prime
      → takes u l prime ≡ true
      → late.sender_id ≡ s.peer_id
      → 0 < own_clock late
      → own_clock late ≤ n
      → takes u (after_all u (after u l prime) msgs) late ≡ false
  demo_silences u s id sender_name content n prime l msgs late made taken from pos small =
      let clock = put [] s.peer_id n in
      let (sender, stamp) =
        subst (Keeps s.peer_id (copy (copy clock))) made
          (signed_demo_message-Keeps s id sender_name content clock) in
      let own : own_clock prime ≡ n =
        ap (λ k. at prime.vector_clock k) sender
        ∙ ap (λ (m : GoMap ℕ). at m s.peer_id) stamp
        ∙ at-copy (copy clock) s.peer_id
        ∙ at-copy clock s.peer_id
        ∙ at-put_self [] s.peer_id n in
      regression_refused u l prime msgs late taken (from ∙ sym sender) pos (omega (arith, own))
