-- ===== src/Chat.antt =====
-- internal/chat/ledger.go: the order of messages, and the ledger that each node keeps in memory.
-- A method of `Ledger` holds the mutex from its first line to its last, so each is one step, and a
-- stored message is a clone, so no caller can change it.
pub mod Order
pub mod History
pub mod Admission
pub mod Queries
pub mod Sync
pub mod Merged
pub mod Invariant
use distributed_multi_agent.Base.{
  ℕ, suc, ◌+◌, ◌-◌, ◌%◌, List, [], ◌∷◌, ◌++◌, map, Bool, true, false, ◌&&◌, Option, none, some, ite,
  ltb, leb, if◌then◌else◌, length, take, drop, Bytes, bytes, Bytes-discrete, Sign, less, same,
  greater, compare_bytes, GoMap, StringSet, get, put, delete, keys, at, has, include, sort_stable,
}
use distributed_multi_agent.Clock
use distributed_multi_agent.Clock.{before, after, concurrent, equal, copy, u64}
use distributed_multi_agent.Types.{Message}
use distributed_multi_agent.Unicode.{Unicode}

-- A Go `int` counter, by its 64-bit pattern.
unfoldable pub incr : ℕ → ℕ
incr n = (n + 1) % u64

abbrev pub default_max_messages : ℕ
default_max_messages = 200

pub record Ledger : Type 0 where
  pub max : ℕ
  pub ids : StringSet
  pub messages : List Message
  pub sender_clock : GoMap ℕ
  pub prev_hash_by_sender : GoMap Bytes
  pub verified : ℕ
  pub rejected : ℕ
  pub repaired : ℕ
  pub duplicate : ℕ
  pub equivocation : ℕ
  pub clock_back : ℕ
  pub last_reject : Bytes
  pub sync_status : Bytes

unfoldable pub new_ledger : ℕ → Ledger
new_ledger max = record {
  max = if leb max 0 then default_max_messages else max;
  ids = [];
  messages = [];
  sender_clock = [];
  prev_hash_by_sender = [];
  verified = 0;
  rejected = 0;
  repaired = 0;
  duplicate = 0;
  equivocation = 0;
  clock_back = 0;
  last_reject = [];
  sync_status = bytes "idle";
}

unfoldable pub clone_message : Message → Message
clone_message msg = record msg { vector_clock = copy msg.vector_clock }

module _ (u : Unicode) where
  -- The ladder of tie-breakers of `CompareMessages`, for clocks of which neither is before.
  unfoldable pub compare_ties : Message → Message → Sign
  compare_ties a b =
      ite (Bytes-discrete a.sender_id b.sender_id)
        (ite (Bytes-discrete a.id b.id)
          (if u.equal_fold a.sender_name b.sender_name
            then compare_bytes a.content b.content
            else compare_bytes (u.to_lower a.sender_name) (u.to_lower b.sender_name))
          (compare_bytes a.id b.id))
        (compare_bytes a.sender_id b.sender_id)

  unfoldable pub compare_messages : Message → Message → Sign
  compare_messages a b = elim (Clock.compare a.vector_clock b.vector_clock) [
    | before ↦ less
    | after ↦ greater
    | concurrent ↦ compare_ties a b
    | equal ↦ compare_ties a b
  ]

  -- The function handed to `sort.SliceStable`.
  unfoldable pub comes_before : Message → Message → Bool
  comes_before a b = elim (compare_messages a b) [ less ↦ true | same ↦ false | greater ↦ false ]

  unfoldable pub sort_messages : List Message → List Message
  sort_messages msgs = sort_stable comes_before msgs

abbrev pub duplicate_message : Bytes
duplicate_message = bytes "duplicate_message"

abbrev pub invalid_message : Bytes
invalid_message = bytes "invalid_message"

abbrev pub clock_regression : Bytes
clock_regression = bytes "clock_regression"

abbrev pub equivocation_fork : Bytes
equivocation_fork = bytes "equivocation_fork"

-- `msg.VectorClock[msg.SenderID]`.
abbrev pub own_clock : Message → ℕ
own_clock msg = at msg.vector_clock msg.sender_id

-- `msg.SenderID + "|" + msg.PrevHash`.
unfoldable pub chain_key : Message → Bytes
chain_key msg = msg.sender_id ++ (bytes "|" ++ msg.prev_hash)

-- `if senderClock > 0 { if prev, ok := …; ok && senderClock <= prev`.
unfoldable pub regresses : Ledger → Message → Bool
regresses l msg = ltb 0 (own_clock msg) && elim (get l.sender_clock msg.sender_id) [
  | none ↦ false
  | some prev ↦ leb (own_clock msg) prev
]

-- `if msg.PrevHash != "" { if prevID, ok := …; ok && prevID != msg.ID`.
unfoldable pub forks : Ledger → Message → Bool
forks l msg =
    ite (Bytes-discrete msg.prev_hash []) false (elim (get l.prev_hash_by_sender (chain_key msg)) [
      | none ↦ false
      | some prev_id ↦ ite (Bytes-discrete prev_id msg.id) false true
    ])

-- `for _, old := range remove { delete(l.ids, old.ID) }`.
unfoldable pub delete_ids : StringSet → List Message → StringSet
delete_ids ids [] = ids
delete_ids ids (old ∷ rest) = delete_ids (delete ids old.id) rest

-- The block under `if len(l.messages) > l.max`.
unfoldable pub evict : Ledger → Ledger
evict l =
    if ltb l.max (length l.messages)
    then record l {
      ids = delete_ids l.ids (take (length l.messages - l.max) l.messages);
      messages = drop (length l.messages - l.max) l.messages;
    }
    else l

module _ (u : Unicode) where
  -- The part of `AddWithReason` after its checks, up to the eviction.
  unfoldable pub record_message : Ledger → Message → Ledger
  record_message l msg = record l {
    ids = include l.ids msg.id;
    prev_hash_by_sender =
        ite (Bytes-discrete msg.prev_hash []) l.prev_hash_by_sender
          (put l.prev_hash_by_sender (chain_key msg) msg.id);
    sender_clock =
        if ltb (at l.sender_clock msg.sender_id) (own_clock msg)
        then put l.sender_clock msg.sender_id (own_clock msg)
        else l.sender_clock;
    messages = sort_messages u (l.messages ++ (clone_message msg ∷ []));
  }

  unfoldable pub accept : Ledger → Message → Ledger
  accept l msg = let l' = evict (record_message l msg) in record l' { verified = incr l'.verified }

  -- `AddWithReason`; `none` is the nil pointer.
  unfoldable pub add_with_reason : Ledger → Option Message → Ledger × (Bool × Bytes)
  add_with_reason l none = (l, (false, invalid_message))
  add_with_reason l (some msg) =
      ite (Bytes-discrete msg.id []) (l, (false, invalid_message))
        (if has l.ids msg.id
          then (record l { duplicate = incr l.duplicate }, (false, duplicate_message))
          else if regresses l msg
          then (
            record l { clock_back = incr l.clock_back; last_reject = clock_regression },
            (false, clock_regression),
          )
          else if forks l msg
          then (
            record l { equivocation = incr l.equivocation; last_reject = equivocation_fork },
            (false, equivocation_fork),
          )
          else (accept l msg, (true, [])))

  unfoldable pub add : Ledger → Option Message → Ledger × Bool
  add l msg = let (l', (ok, reason)) = add_with_reason l msg in (l', ok)
