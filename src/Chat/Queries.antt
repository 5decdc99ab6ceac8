-- ===== src/Chat/Queries.antt =====
-- The reading methods and the diagnostics of internal/chat/ledger.go. A limit below zero takes the
-- branch of zero, so limits are natural numbers.
use distributed_multi_agent.Base.{
  ℕ, ◌+◌, ◌-◌, ◌%◌, List, [], ◌∷◌, map, Bool, true, false, ◌||◌, ite, ltb, leb, if◌then◌else◌,
  length, drop, Bytes, bytes, Bytes-discrete, less, same, greater, compare_bytes, GoMap, StringSet,
  keys, has, include, sort_stable,
}
use distributed_multi_agent.Chat.{Ledger, clone_message, incr}
use distributed_multi_agent.Clock.{merge_keys, u64}
use distributed_multi_agent.Types.{Message}

-- `Has`.
unfoldable pub has_id : Ledger → Bytes → Bool
has_id l id = has l.ids id

-- The order of `sort.Strings`.
unfoldable pub string_less : Bytes → Bytes → Bool
string_less a b = elim (compare_bytes a b) [ less ↦ true | same ↦ false | greater ↦ false ]

-- `IDs`.
unfoldable pub all_ids : Ledger → List Bytes
all_ids l = sort_stable string_less (keys l.ids)

-- `Recent`.
unfoldable pub recent : Ledger → ℕ → List Message
recent l limit =
    let n = length l.messages in
    let kept = if leb limit 0 || ltb n limit then n else limit in
    map clone_message (drop (n - kept) l.messages)

-- The set that `MissingFrom` builds of the known IDs.
unfoldable pub known_set : StringSet → List Bytes → StringSet
known_set s [] = s
known_set s (id ∷ known) = known_set (include s id) known

-- The loop of `MissingFrom` over the recent messages.
unfoldable pub unknown : StringSet → List Message → List Message
unknown s [] = []
unknown s (msg ∷ msgs) = let rest = unknown s msgs in if has s msg.id then rest else msg ∷ rest

unfoldable pub missing_from : Ledger → List Bytes → ℕ → List Message
missing_from l known limit = unknown (known_set [] known) (recent l limit)

unfoldable pub mark_rejected : Ledger → Ledger
mark_rejected l = record l { rejected = incr l.rejected }

unfoldable pub mark_rejected_reason : Ledger → Bytes → Ledger
mark_rejected_reason l reason = record l {
  rejected = incr l.rejected;
  last_reject = ite (Bytes-discrete reason []) (bytes "rejected") reason;
}

unfoldable pub add_repaired : Ledger → ℕ → Ledger
add_repaired l n = if leb n 0 then l else record l { repaired = (l.repaired + n) % u64 }

unfoldable pub set_sync_status : Ledger → Bytes → Ledger
set_sync_status l status = record l {
  sync_status = ite (Bytes-discrete status []) (bytes "idle") status;
}

pub record Stats : Type 0 where
  pub message_count : ℕ
  pub verified : ℕ
  pub rejected : ℕ
  pub repaired : ℕ
  pub duplicate : ℕ
  pub equivocation : ℕ
  pub clock_back : ℕ
  pub sync_status : Bytes
  pub last_reject : Bytes
  pub vector_clock : GoMap ℕ

-- The two nested loops of `Stats`: the body of the inner one is that of `Merge`.
unfoldable pub merged_clock : GoMap ℕ → List Message → GoMap ℕ
merged_clock vc [] = vc
merged_clock vc (msg ∷ msgs) =
    merged_clock (merge_keys vc msg.vector_clock (keys msg.vector_clock)) msgs

unfoldable pub stats : Ledger → Stats
stats l = record {
  message_count = length l.messages;
  verified = l.verified;
  rejected = l.rejected;
  repaired = l.repaired;
  duplicate = l.duplicate;
  equivocation = l.equivocation;
  clock_back = l.clock_back;
  sync_status = l.sync_status;
  last_reject = l.last_reject;
  vector_clock = merged_clock [] l.messages;
}
