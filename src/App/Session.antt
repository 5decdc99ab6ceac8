-- ===== src/App/Session.antt =====
-- cmd/main.go: a node's session in a room, from the setup message of the browser to the reset, and how
-- the batcher, the persona and the chat are joined in it.
use distributed_multi_agent.App.{App, ai_message_from_types, sign_and_publish}
use distributed_multi_agent.Base.{
  ℕ, List, [], ◌∷◌, ◌++◌, Bool, true, false, ◌||◌, Option, none, some, ◌==◌, if◌then◌else◌, length,
  Bytes, bytes, Result, ok, err,
}
use distributed_multi_agent.Batcher.{Batcher, ChatMessage, new_batcher}
use distributed_multi_agent.Batcher
use distributed_multi_agent.Browser.{WsEnvelope, zero_envelope}
use distributed_multi_agent.Chat.{default_max_messages, new_ledger}
use distributed_multi_agent.Clock
use distributed_multi_agent.Clock.{copy}
use distributed_multi_agent.Crypto.{Identity, Libp2p, generate_identity}
use distributed_multi_agent.Memory.{MemoryStore}
use distributed_multi_agent.Mention.{normalize_mentions, parse_mentions}
use distributed_multi_agent.Orchestrator.Float.{Float}
use distributed_multi_agent.Orchestrator.Score.{
  Orchestrator, Persona, new_orchestrator, set_persona,
}
use distributed_multi_agent.Orchestrator.Score
use distributed_multi_agent.Orchestrator.Turns.{Turn, force_reply, process}
use distributed_multi_agent.Room.{Room}
use distributed_multi_agent.Types.{Codec, Message}
use distributed_multi_agent.Unicode.{Unicode}
use distributed_multi_agent.Validate.{is_empty}
use distributed_multi_agent.Wire.{Activity, activity_packet}

-- `batcher.Stop()` and `orch.Stop()`, each on a pointer that may be nil.
unfoldable pub stop_ai : App → App
stop_ai s = record s {
  batcher = elim s.batcher [ none ↦ none | some b ↦ some (Batcher.stop b) ];
  orch = elim s.orch [ none ↦ none | some o ↦ some (Score.stop o) ];
}

-- `resetRoom`: the cleared state; the batcher and the persona that were in use are stopped.
unfoldable pub reset_room : App → App × (Option Batcher × Option Orchestrator)
reset_room s = (
  record s {
    ready = false;
    identity = none;
    peer_id = [];
    user_name = [];
    ai_name = [];
    has_node = false;
    room = none;
    vc = none;
    prev_hash = [];
    batcher = none;
    orch = none;
    ledger = none;
  },
  ((stop_ai s).batcher, (stop_ai s).orch),
)

-- `if x == "" { x = def }`.
unfoldable pub or_default : Bytes → Bytes → Bytes
or_default x def = if is_empty x then def else x

-- The persona of a setup message.
unfoldable pub persona_of : WsEnvelope → Persona
persona_of env = record {
  name = or_default env.ai_name (bytes "AI");
  style = or_default env.ai_style (bytes "friendly and casual");
  model = or_default env.ai_model (bytes "deepseek-r1:8b");
}

-- The state of `init` once the node is made and the room joined, `named` being the one with the
-- identity; the store of memories is nil where it
-- could not be made.
unfoldable pub joined : App → WsEnvelope → Room → Option MemoryStore → App
joined named env room mem_store = record named {
  ready = true;
  user_name = env.sender_name;
  ai_name = or_default env.ai_name (bytes "AI");
  has_node = true;
  room = some room;
  vc = some Clock.new;
  batcher = some new_batcher;
  orch =
      some
        (record (new_orchestrator (persona_of env) mem_store env.num_ctx) { on_thinking = true });
  ledger = some (new_ledger default_max_messages);
}

-- The calls of libp2p in `init`: `NewNode`, and `JoinChatRoom` for a room's code.
pub record Network : Type 0 where
  pub new_node : Identity → Result (Unit {0})
  pub join : Identity → Bytes → Result Room

-- `init`, with the identity that is generated from `seed`, and the error that it returns. A node or a
-- room that could not be made leaves the fields set before it.
unfoldable pub init :
    Libp2p
    → Network
    → (Bytes → ℕ → Option MemoryStore)
    → App
    → Bytes
    → WsEnvelope
    → App × Option Bytes
init p network new_store s seed env =
    if s.ready then (s, none) else elim (generate_identity p seed) [
      | err e ↦ (s, some (bytes "identity: " ++ e))
      | ok identity ↦
          let named = record s { identity = some identity; peer_id = p.encode identity.peer_id } in
          elim (network.new_node identity) [
            | err e ↦ (named, some (bytes "p2p node: " ++ e))
            | ok n ↦ elim (network.join identity (or_default env.room (bytes "default"))) [
              | err e ↦ (record named { has_node = true }, some (bytes "join room: " ++ e))
              | ok room ↦ (
                joined named env room (
                    new_store (or_default env.ai_name (bytes "AI"))
                      (if env.memory_limit == 0 then 50 else env.memory_limit)),
                none,
              )
            ]
          ]
    ]

-- The envelope by which the browser shows or hides an activity.
unfoldable pub activity_envelope : Bytes → Bytes → Bool → WsEnvelope
activity_envelope name action active = record zero_envelope {
  kind = if active then bytes "activity" else bytes "activity_stop";
  sender_name = name;
  content = action;
}

-- The thinking callback of `init`: what it publishes, and what it broadcasts.
unfoldable pub on_thinking : Bytes → Bool → Activity × WsEnvelope
on_thinking persona_name active = (
  activity_packet persona_name (bytes "thinking") active,
  activity_envelope persona_name (bytes "thinking") active,
)

-- One turn of the goroutine that reads `room.Activities`.
unfoldable pub relay_activity : App → Activity → App
relay_activity s act = record s {
  browser = s.browser ++ (activity_envelope act.name act.action act.active ∷ []);
}

module _ (u : Unicode) (find : Bytes → List Bytes) where
  unfoldable pub resolve_mentions : Bytes → List Bytes → Bool → List Bytes × Bool
  resolve_mentions content mentions mention_all =
      let (parsed_mentions, parsed_all) = parse_mentions u find content in
      (
        normalize_mentions u (if length mentions == 0 then parsed_mentions else mentions),
        mention_all || parsed_all,
      )

  module _ (p : Libp2p) (c : Codec) where
    -- The `onReply` of `init`: the reply is signed and published, with what is returned of it.
    unfoldable pub on_reply :
        App → (Message → Bool) → Bytes → Bytes → Bytes → App × Option ChatMessage
    on_reply s publish id name content =
        let (mentions, mention_all) = resolve_mentions content [] false in
        let (s', msg) =
          sign_and_publish u p c s publish id name content true mentions mention_all in
        (s', elim msg [ none ↦ none | some m ↦ some (ai_message_from_types m) ])

    -- The message that the case `chat` gives the batcher.
    unfoldable pub local_message : WsEnvelope → List Bytes → Bool → Option Message → ChatMessage
    local_message env mentions mention_all msg = record {
      id = elim msg [ none ↦ [] | some m ↦ m.id ];
      sender_id = elim msg [ none ↦ [] | some m ↦ m.sender_id ];
      sender_name = env.sender_name;
      content = env.content;
      is_ai = false;
      mentions = mentions;
      mention_all = mention_all;
      vector_clock = elim msg [ none ↦ [] | some m ↦ copy m.vector_clock ];
    }

    -- The case `chat` of a message from the browser, once the session is ready; a nil batcher panics,
    -- which is `none`.
    unfoldable pub say :
        App → (Message → Bool) → Bytes → ℕ → WsEnvelope → Option (App × Option (List ChatMessage))
    say s publish id now env =
        let (mentions, mention_all) = resolve_mentions env.content env.mentions env.mention_all in
        let (s', msg) =
          sign_and_publish u p c s publish id env.sender_name env.content false mentions
            mention_all in
        elim s'.batcher [
          | none ↦ none
          | some b ↦
              let (b', batch) = Batcher.add b now (local_message env mentions mention_all msg) in
              some (record s' { batcher = some b' }, batch)
        ]

-- The case `force_reply`; a nil batcher panics.
unfoldable pub force : App → Option (App × Option (List ChatMessage))
force s = elim s.batcher [
  | none ↦ none
  | some b ↦ let (b', batch) = Batcher.force_flush b in some (record s { batcher = some b' }, batch)
]

-- The case `persona`; a nil persona panics.
unfoldable pub rename : App → WsEnvelope → Option App
rename s env = elim s.orch [
  | none ↦ none
  | some o ↦ some (record s {
    orch =
        some (
          set_persona o
            (record { name = env.ai_name; style = env.ai_style; model = env.ai_model }));
  })
]

module _ (u : Unicode) (f : Float) where
  -- The function that `init` gives the batcher: a batch begins a turn of the persona.
  unfoldable pub on_flush : App → ℕ → List ChatMessage → App × Option Turn
  on_flush s now batch = elim s.orch [
    | none ↦ (s, none)
    | some o ↦
        let (o', turn) = if length batch == 0 then force_reply u f o else process u f o now batch in
        (record s { orch = some o' }, turn)
  ]
