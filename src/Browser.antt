-- ===== src/Browser.antt =====
-- cmd/main.go: what the application writes to the browser. Every envelope goes to all clients, but for
-- the answers to one client's own requests.
use distributed_multi_agent.Base.{
  ℕ, ◌+◌, ◌%◌, List, [], ◌∷◌, ◌++◌, map, Bool, false, not, ◌&&◌, Option, none, some, leb,
  if◌then◌else◌, length, take, Bytes, bytes, GoMap, decimal,
}
use distributed_multi_agent.Chat.Queries.{Stats, recent, stats}
use distributed_multi_agent.Chat.{Ledger, default_max_messages, own_clock}
use distributed_multi_agent.Clock.{VectorClock, copy, snapshot, u64}
use distributed_multi_agent.Room.{Room}
use distributed_multi_agent.Trace.{SecurityTraceEvent}
use distributed_multi_agent.Trust.{TrustStats, trust_stats}
use distributed_multi_agent.Types.{Message}
use distributed_multi_agent.Unicode.{Unicode}
use distributed_multi_agent.Validate.{eqb, is_empty}

-- `wsEnvelope`.
pub record WsEnvelope : Type 0 where
  pub kind : Bytes
  pub id : Bytes
  pub sender_id : Bytes
  pub sender_name : Bytes
  pub content : Bytes
  pub mentions : List Bytes
  pub mention_all : Bool
  pub is_ai : Bool
  pub vector_clock : GoMap ℕ
  pub self : Bool
  pub count : ℕ
  pub peer_id : Bytes
  pub room : Bytes
  pub ai_name : Bytes
  pub ai_style : Bytes
  pub ai_model : Bytes
  pub memory_limit : ℕ
  pub num_ctx : ℕ
  pub message_count : ℕ
  pub verified_count : ℕ
  pub rejected_count : ℕ
  pub repaired_count : ℕ
  pub duplicate_count : ℕ
  pub equivocation_count : ℕ
  pub rate_limited_count : ℕ
  pub clock_back_count : ℕ
  pub sync_status : Bytes
  pub quarantined : ℕ
  pub last_reject : Bytes
  pub time_model : Bytes
  pub trace_kind : Bytes
  pub trace_verdict : Bytes
  pub trace_reason : Bytes
  pub trace_from_peer : Bytes
  pub trace_summary : Bytes
  pub trace_steps : List Bytes

-- `wsEnvelope{}`.
abbrev pub zero_envelope : WsEnvelope
zero_envelope = record {
  kind = [];
  id = [];
  sender_id = [];
  sender_name = [];
  content = [];
  mentions = [];
  mention_all = false;
  is_ai = false;
  vector_clock = [];
  self = false;
  count = 0;
  peer_id = [];
  room = [];
  ai_name = [];
  ai_style = [];
  ai_model = [];
  memory_limit = 0;
  num_ctx = 0;
  message_count = 0;
  verified_count = 0;
  rejected_count = 0;
  repaired_count = 0;
  duplicate_count = 0;
  equivocation_count = 0;
  rate_limited_count = 0;
  clock_back_count = 0;
  sync_status = [];
  quarantined = 0;
  last_reject = [];
  time_model = [];
  trace_kind = [];
  trace_verdict = [];
  trace_reason = [];
  trace_from_peer = [];
  trace_summary = [];
  trace_steps = [];
}

-- `shortID`.
unfoldable pub short_text : Bytes → Bytes
short_text id = if leb (length id) 8 then id else take 8 id

unfoldable pub short_hash_text : Bytes → Bytes
short_hash_text hash =
    if is_empty hash then bytes "<empty>" else if leb (length hash) 12 then hash else take 12 hash

unfoldable pub truncate_text : Bytes → ℕ → Bytes
truncate_text s max = if leb (length s) max then s else take max s ++ bytes "..."

unfoldable pub envelope_from_message : Message → Bool → WsEnvelope
envelope_from_message msg self = record zero_envelope {
  kind = bytes "chat";
  id = msg.id;
  sender_id = msg.sender_id;
  sender_name = msg.sender_name;
  content = msg.content;
  mentions = msg.mentions;
  mention_all = msg.mention_all;
  is_ai = msg.is_ai;
  vector_clock = copy msg.vector_clock;
  self = self;
}

-- `broadcastSecurityTrace`.
unfoldable pub trace_envelopes : SecurityTraceEvent → List WsEnvelope
trace_envelopes trace = elim trace.steps [
  | [] ↦ []
  | step ∷ steps ↦
      (record zero_envelope {
        kind = bytes "security_trace";
        trace_kind = trace.kind;
        trace_verdict = trace.verdict;
        trace_reason = trace.reason;
        trace_from_peer = trace.from_peer;
        trace_summary = trace.packet_summary;
        trace_steps = step ∷ steps;
      })
      ∷ []
]

-- The trace of a message that the ledger refuses.
unfoldable pub refused_trace : Unicode → Message → Bytes → SecurityTraceEvent
refused_trace u msg reason = record {
  from_peer = short_text msg.sender_id;
  kind = bytes "ledger";
  verdict = bytes "drop";
  reason = reason;
  packet_summary =
      bytes "message_id="
      ++ (short_text msg.id
          ++ (bytes " sender="
              ++ (short_text msg.sender_id
                  ++ (bytes " content=" ++ u.quote (truncate_text msg.content 70)))));
  steps =
      bytes "[LEDGER] signed packet reached application ledger"
      ∷ (bytes "[CHECK] message_id="
          ++ (short_text msg.id
              ++ (bytes " sender_clock="
                  ++ (decimal (own_clock msg)
                      ++ (bytes " prev_hash=" ++ short_hash_text msg.prev_hash)))))
      ∷ (bytes "[DROP] reason = " ++ reason)
      ∷ bytes "[RESULT] not rendered in UI and not added to AI history"
      ∷ [];
}

unfoldable pub taken_trace : Message → SecurityTraceEvent
taken_trace msg = record {
  from_peer = short_text msg.sender_id;
  kind = bytes "ledger";
  verdict = bytes "accept";
  reason = [];
  packet_summary =
      bytes "message_id=" ++ (short_text msg.id ++ (bytes " sender=" ++ short_text msg.sender_id));
  steps =
      bytes "[LEDGER] message_id is new and sender clock is monotonic"
      ∷ bytes "[ORDER] vector clock merged into local logical time"
      ∷ bytes "[RESULT] inserted into ledger / UI / AI history"
      ∷ [];
}

-- The statistics of the room's tracker; no room has the zero statistics, and neither has a nil tracker.
unfoldable pub room_stats : Option Room → TrustStats
room_stats none = record {
  rejected = 0;
  quarantined_peers = 0;
  rate_limited = 0;
  last_reject_reason = [];
}
room_stats (some cr) = elim cr.trust [
  | none ↦ record { rejected = 0; quarantined_peers = 0; rate_limited = 0; last_reject_reason = [] }
  | some t ↦ trust_stats t
]

-- The envelope of `broadcastDiagnostics`.
unfoldable pub diagnostics_of : Stats → GoMap ℕ → TrustStats → WsEnvelope
diagnostics_of st clock trust = record zero_envelope {
  kind = bytes "diagnostics";
  message_count = st.message_count;
  verified_count = st.verified;
  rejected_count = (st.rejected + trust.rejected) % u64;
  repaired_count = st.repaired;
  duplicate_count = st.duplicate;
  equivocation_count = st.equivocation;
  rate_limited_count = trust.rate_limited;
  clock_back_count = st.clock_back;
  sync_status = st.sync_status;
  quarantined = trust.quarantined_peers;
  last_reject =
      if is_empty trust.last_reject_reason then st.last_reject else trust.last_reject_reason;
  time_model = bytes "Vector Clock (no physical clock sync)";
  vector_clock = clock;
}

-- `broadcastDiagnostics`.
unfoldable pub diagnostics : Option Ledger → Option VectorClock → Option Room → List WsEnvelope
diagnostics none vc room = []
diagnostics (some l) vc room =
    diagnostics_of (stats l)
      (elim vc [ none ↦ (stats l).vector_clock | some clock ↦ snapshot clock ]) (room_stats room)
    ∷ []

-- The envelopes that `sendLedgerSnapshot` writes to one client.
unfoldable pub ledger_snapshot : Option Ledger → Bytes → List WsEnvelope
ledger_snapshot none peer_id = []
ledger_snapshot (some l) peer_id =
    map (λ msg. envelope_from_message msg (eqb msg.sender_id peer_id && not msg.is_ai))
      (recent l default_max_messages)
