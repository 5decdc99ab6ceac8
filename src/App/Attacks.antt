-- ===== src/App/Attacks.antt =====
-- cmd/main.go: `runDemoAttack`, which injects a faulty packet into the room to show how the peers
-- defend themselves. The constant texts that the result carries for the browser are left out.
use distributed_multi_agent.App.Demo.{build_flood_demo_payloads, signed_demo_message}
use distributed_multi_agent.App.{App, has_some, or_empty}
use distributed_multi_agent.Base.{
  ℕ, List, [], ◌∷◌, ◌++◌, not, ◌&&◌, Option, none, some, ite, if◌then◌else◌, Bytes, bytes,
  Bytes-discrete, put, Result, ok, err,
}
use distributed_multi_agent.Chat.Queries.{recent}
use distributed_multi_agent.Crypto.{Identity, Libp2p, sign}
use distributed_multi_agent.Types.{Codec, Message, signable_bytes}
use distributed_multi_agent.Wire.{Control, sync_request_packet, sync_response_packet}

-- What a demonstration comes to before it publishes anything: the error that it returns, the message
-- that it gives `Publish`, or the packets that it gives `PublishRawBurstForDemo`.
pub data Sending : Type 0 where
  refused : Bytes → Sending
  replayed : Message → Sending
  injected : List Bytes → Sending

-- A `switch` on a text.
unfoldable pub switch : {A : Type 0} → Bytes → List (Bytes × A) → A → A
switch text [] other = other
switch text ((label, branch) ∷ rest) other =
    ite (Bytes-discrete text label) branch (switch text rest other)

unfoldable pub needs_node : App → Sending → Sending
needs_node s sending = if s.has_node then sending else refused (bytes "p2p node is not ready")

-- The end of `runDemoAttack`, for a payload and the error of encoding it.
unfoldable pub inject : App → Result Bytes → Sending
inject s (err e) = refused e
inject s (ok payload) = needs_node s (injected (payload ∷ []))

-- The case `replay_message`.
unfoldable pub replay : App → Sending
replay s = elim s.ledger [
  | none ↦ refused (bytes "ledger is not ready")
  | some l ↦ elim (recent l 1) [
    | [] ↦ refused (bytes "send a normal chat message before replay demo")
    | msg ∷ rest ↦ replayed msg
  ]
]

-- `msg, err := s.signedDemoMessage(…)`, with what is done with a message.
unfoldable pub with_signed : App × Result Message → (App → Message → App × Sending) → App × Sending
with_signed (s, err e) next = (s, refused e)
with_signed (s, ok msg) next = next s msg

-- The cases with one message of `signedDemoMessage` assign the error of `json.Marshal` to a variable of
-- the case, so that the payload is published, empty, where there is one.
unfoldable pub inject_anyway : App → Result Bytes → Sending
inject_anyway s payload = inject s (ok (or_empty payload))

-- Two messages are encoded and sent in one burst.
unfoldable pub burst : App → Result Bytes → Result Bytes → Sending
burst s (err e) second = refused e
burst s (ok first) (err e) = refused e
burst s (ok first) (ok second) = needs_node s (injected (first ∷ second ∷ []))

module _ (p : Libp2p) (c : Codec) (encode : Message → Result Bytes) (uuid : ℕ → Bytes) where
  -- The case `tamper_content`; `uuid` gives the fresh UUIDs in their order.
  unfoldable pub tamper_content : App → App × Sending
  tamper_content s =
      with_signed
        (signed_demo_message p c s (uuid 0) (bytes "TamperDemo") (bytes "legitimate text") none)
        (λ s' msg. (
          s',
          inject_anyway s'
              (encode (record msg { content = bytes "FORGED: content changed after signing" })),
        ))

  -- The case `missing_sender_clock`.
  unfoldable pub missing_sender_clock : App → App × Sending
  missing_sender_clock s =
      with_signed
        (signed_demo_message p c s (uuid 0) (bytes "ClockDemo")
          (bytes "signed but missing sender clock") (some (put [] (bytes "other-peer") 1)))
        (λ s' msg. (s', inject_anyway s' (encode msg)))

  -- The case `clock_regression`.
  unfoldable pub clock_regression : App → App × Sending
  clock_regression s =
      with_signed
        (signed_demo_message p c s (uuid 0) (bytes "ClockDemo")
          (bytes "prime sender clock high watermark") (some (put [] s.peer_id 900)))
        (λ s' prime.
          with_signed
            (signed_demo_message p c s' (uuid 1) (bytes "ClockDemo")
              (bytes "signed but sender clock regressed") (some (put [] s.peer_id 100)))
            (λ s'' low. (s'', burst s'' (encode prime) (encode low))))

  -- A message of the fork, signed again over the previous hash that it now has.
  unfoldable pub fork_of : Identity → Message → Message
  fork_of identity msg =
      let forked = record msg { prev_hash = bytes "attack-fork-prev-hash" } in
      record forked { signature = or_empty (sign p identity (or_empty (signable_bytes c forked))) }

  -- The case `equivocation_fork`.
  unfoldable pub equivocation_fork : App → Identity → App × Sending
  equivocation_fork s identity =
      with_signed
        (signed_demo_message p c s (uuid 0) (bytes "ForkDemo") (bytes "branch A")
          (some (put [] s.peer_id 777001)))
        (λ s' a.
          with_signed
            (signed_demo_message p c s' (uuid 1) (bytes "ForkDemo") (bytes "branch B")
              (some (put [] s.peer_id 777002)))
            (λ s'' b. (s'', burst s'' (encode (fork_of identity a)) (encode (fork_of identity b)))))

  -- The case `flood_spam`, whose node is tested before the packets are made.
  unfoldable pub flood_spam : App → Sending
  flood_spam s = needs_node s (elim (build_flood_demo_payloads p c encode uuid s 24) [
    | err e ↦ refused e
    | ok payloads ↦ injected payloads
  ])

  module _ (encode_control : Control → Result Bytes) where
    -- The case `spoof_sync`.
    unfoldable pub spoof_sync : App → Sending
    spoof_sync s =
        inject s (encode_control (sync_request_packet (uuid 0) (bytes "spoofed-peer-id") []))

    -- The case `forged_sync`.
    unfoldable pub forged_sync : App → App × Sending
    forged_sync s =
        with_signed
          (signed_demo_message p c s (uuid 0) (bytes "ForgedSyncDemo")
            (bytes "legitimate sync message") none)
          (λ s' msg.
            let forged = record msg { content = bytes "FORGED SYNC: modified after signing" } in
            (
              s',
              inject_anyway s'
                  (encode_control (sync_response_packet (uuid 1) s.peer_id (forged ∷ []))),
            ))

    -- The cases of `runDemoAttack`, in their order.
    unfoldable pub attacks : App → Identity → List (Bytes × (App × Sending))
    attacks s identity =
        (bytes "tamper_content", tamper_content s)
        ∷ (bytes "spoof_sync", (s, spoof_sync s))
        ∷ (bytes "replay_message", (s, replay s))
        ∷ (bytes "malformed_payload", (s, inject s (ok (bytes "{not valid json"))))
        ∷ (bytes "forged_sync", forged_sync s)
        ∷ (bytes "missing_sender_clock", missing_sender_clock s)
        ∷ (bytes "clock_regression", clock_regression s)
        ∷ (bytes "equivocation_fork", equivocation_fork s identity)
        ∷ (bytes "flood_spam", (s, flood_spam s))
        ∷ []

    -- `runDemoAttack` up to the publishing; `quote` is `%q`.
    unfoldable pub prepare_attack : (Bytes → Bytes) → App → Bytes → App × Sending
    prepare_attack quote s attack_type = elim s.identity [
      | none ↦ (s, refused (bytes "room is not ready"))
      | some identity ↦
          if not (s.ready && has_some s.room)
          then (s, refused (bytes "room is not ready"))
          else (switch attack_type (attacks s identity)
              (s, refused (bytes "unknown attack type " ++ quote attack_type)))
    ]

    -- `runDemoAttack`, with the error that it returns. `publish` stands for `Publish` and
    -- `PublishRawBurstForDemo`, which are libp2p's: how the state is after them, the room with what the
    -- validator has noted included, since libp2p runs it on a message of the own node too, and their
    -- error.
    unfoldable pub run_demo_attack :
        (App → Sending → App × Option Bytes) → (Bytes → Bytes) → App → Bytes → App × Option Bytes
    run_demo_attack publish quote s attack_type =
        let (s', sending) = prepare_attack quote s attack_type in
        elim sending [
          | refused error ↦ (s', some error)
          | replayed msg ↦ publish s' (replayed msg)
          | injected packets ↦ publish s' (injected packets)
        ]
