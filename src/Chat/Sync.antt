-- ===== src/Chat/Sync.antt =====
-- `IDs`, `Recent` and `MissingFrom` of internal/chat/ledger.go: what a node tells a peer
-- that asks for the messages it lacks.
use distributed_multi_agent.Base.{
  ℕ, zero, suc, ◌-◌, ◌≡◌, refl, ap, ◌∙◌, ◌↔◌, inl, inr, List, [], ◌∷◌, map, Bool, true, false, ◌||◌,
  arith, ltb, leb, if◌then◌else◌, length, length-drop, drop, take, take-append-drop, ◌++◌, ◌<◌,
  Bytes, Bytes-discrete, StringSet, get, keys, has, include, has-include, sort_stable-perm,
  Bool-cases,
}
use distributed_multi_agent.Chat.Invariant.{IsValid, message_ids}
use distributed_multi_agent.Chat.Queries.{
  all_ids, known_set, missing_from, recent, string_less, unknown,
}
use distributed_multi_agent.Chat.{Ledger, clone_message}
use distributed_multi_agent.Clock.{copy}
use distributed_multi_agent.Types.{Message}
use mathlib.Core.HLevel.{×_prop}
use mathlib.Core.List.Perm
use mathlib.Core.List.{Mem, Mem-prop, Perm, mem-cons, mem-cons_self, not-mem-nil}
use mathlib.Core.Logic.Or

is_true_prop : (b : Bool) → IsProp (b ≡ true)
is_true_prop b = hlevel

is_false_prop : (b : Bool) → IsProp (b ≡ false)
is_false_prop b = hlevel

mem-keys_of_has : (s : StringSet) (k : Bytes) → has s k ≡ true → Mem k (keys s)
unfolding has get keys
mem-keys_of_has [] k h = absurd (cc)
mem-keys_of_has ((j, w) ∷ s) k h = elim (Bytes-discrete j k) [
  | yes e ↦ rw e mem-cons_self
  | no ne ↦ mem-cons.1 (Or.inr (mem-keys_of_has s k (ground arith)))
]

has_of_mem-keys : (s : StringSet) (k : Bytes) → Mem k (keys s) → has s k ≡ true
unfolding has get keys
has_of_mem-keys [] k m = absurd (not-mem-nil m)
has_of_mem-keys ((j, w) ∷ s) k m =
    Or.elim (is_true_prop _) (mem-cons.0 m) (λ e. ground arith)
      (λ r. ground (arith, has_of_mem-keys s k r))

-- On a valid ledger `IDs` lists the IDs of the stored messages and no other.
pub all_ids_iff :
    (l : Ledger) (id : Bytes) → IsValid l → Mem id (all_ids l) ↔ Mem id (message_ids l.messages)
unfolding all_ids
all_ids_iff l id v = (
  λ m. (v.indexed id).0 (has_of_mem-keys l.ids id ((Perm.mem_iff sorted).0 m)),
  λ m. (Perm.mem_iff sorted).1 (mem-keys_of_has l.ids id ((v.indexed id).1 m)),
)
  where
    sorted : Perm (all_ids l) (keys l.ids)
    sorted = sort_stable-perm string_less (keys l.ids)

known_set_keeps :
    (s : StringSet) (known : List Bytes) (id : Bytes)
    → has s id ≡ true
    → has (known_set s known) id ≡ true
unfolding known_set
known_set_keeps s [] id h = h
known_set_keeps s (k ∷ known) id h =
    known_set_keeps (include s k) known id (ground (arith, has-include s k id))

known_set_adds :
    (s : StringSet) (known : List Bytes) (id : Bytes)
    → Mem id known
    → has (known_set s known) id ≡ true
unfolding known_set
known_set_adds s [] id m = absurd (not-mem-nil m)
known_set_adds s (k ∷ known) id m =
    Or.elim (is_true_prop _) (mem-cons.0 m)
      (λ e. known_set_keeps (include s k) known id (ground (arith, has-include s k id)))
      (λ r. known_set_adds (include s k) known id r)

known_set_only :
    (s : StringSet) (known : List Bytes) (id : Bytes)
    → has s id ≡ false
    → ¬ Mem id known
    → has (known_set s known) id ≡ false
unfolding known_set
known_set_only s [] id h away = h
known_set_only s (k ∷ known) id h away = elim (Bytes-discrete k id) [
  | yes e ↦ absurd (away (rw e mem-cons_self))
  | no ne ↦
      known_set_only (include s k) known id (ground (arith, has-include s k id))
        (λ m. away (mem-cons.1 (Or.inr m)))
]

mem-unknown :
    (s : StringSet) (msgs : List Message) (m : Message)
    → Mem m (unknown s msgs)
    → Mem m msgs × (has s m.id ≡ false)
unfolding unknown
mem-unknown s [] m mem = absurd (not-mem-nil mem)
mem-unknown s (msg ∷ msgs) m mem = elim (Bool-cases (has s msg.id)) [
  | inl e ↦
      let (there, new) = mem-unknown s msgs m (rw e at mem) in (mem-cons.1 (Or.inr there), new)
  | inr e ↦
      Or.elim (×_prop Mem-prop (is_false_prop _)) (mem-cons.0 (rw e at mem))
        (λ here. (mem-cons.1 (Or.inl here), ap (λ (x : Message). has s x.id) here ∙ e))
        (λ r. let (there, new) = mem-unknown s msgs m r in (mem-cons.1 (Or.inr there), new))
]

unknown_keeps :
    (s : StringSet) (msgs : List Message) (m : Message)
    → Mem m msgs
    → has s m.id ≡ false
    → Mem m (unknown s msgs)
unfolding unknown
unknown_keeps s [] m mem new = absurd (not-mem-nil mem)
unknown_keeps s (msg ∷ msgs) m mem new = elim (Bool-cases (has s msg.id)) [
  | inl e ↦ rw e (
      Or.elim Mem-prop (mem-cons.0 mem)
        (λ here.
          let known : has s m.id ≡ true = ap (λ (x : Message). has s x.id) here ∙ e in
          absurd (ground arith))
        (λ r. unknown_keeps s msgs m r new))
  | inr e ↦ rw e (
      Or.elim Mem-prop (mem-cons.0 mem) (λ here. mem-cons.1 (Or.inl here))
        (λ r. mem-cons.1 (Or.inr (unknown_keeps s msgs m r new))))
]

-- `MissingFrom` answers with exactly those of the recent messages whose IDs are not among the known
-- ones.
pub missing_from_iff :
    (l : Ledger) (known : List Bytes) (limit : ℕ) (m : Message)
    → Mem m (missing_from l known limit) ↔ (Mem m (recent l limit) × (¬ Mem m.id known))
unfolding missing_from has get
missing_from_iff l known limit m = (
  λ mem.
      let (there, new) = mem-unknown (known_set [] known) (recent l limit) m mem in
      (there, λ k. ground (arith, known_set_adds [] known m.id k)),
  λ p.
      unknown_keeps (known_set [] known) (recent l limit) m p.0
        (known_set_only [] known m.id refl p.1),
)

ids_clone : (ms : List Message) → message_ids (map clone_message ms) ≡ message_ids ms
unfolding clone_message
ids_clone [] = refl
ids_clone (m ∷ ms) = ap (◌∷◌ m.id) (ids_clone ms)

ids_drop : (n : ℕ) (ms : List Message) → message_ids (drop n ms) ≡ drop n (message_ids ms)
unfolding drop
ids_drop zero ms = refl
ids_drop (suc n) [] = refl
ids_drop (suc n) (m ∷ ms) = ids_drop n ms

length-clone : (ms : List Message) → length (map clone_message ms) ≡ length ms
length-clone [] = refl
length-clone (m ∷ ms) = ap suc (length-clone ms)

-- How many messages `Recent` returns.
abbrev pub kept : Ledger → ℕ → ℕ
kept l limit = if leb limit 0 || ltb (length l.messages) limit then length l.messages else limit

-- `Recent` hands out the last messages in their order, as many as the limit asks for, or all of
-- them if the limit is zero or exceeds their number.
pub recent_lem :
    (l : Ledger) (limit : ℕ)
    → (length (recent l limit) ≡ kept l limit)
      × (message_ids (recent l limit)
          ≡ drop (length l.messages - kept l limit) (message_ids l.messages))
unfolding recent
recent_lem l limit = (
  ground (
    arith,
    length-clone (drop (length l.messages - kept l limit) l.messages),
    length-drop (length l.messages - kept l limit) l.messages,
  ),
  ids_clone (drop (length l.messages - kept l limit) l.messages)
      ∙ ids_drop (length l.messages - kept l limit) l.messages,
)

-- A node that lacks messages sends its `IDs`, and a peer answers by
-- `MissingFrom`: the answer holds a message exactly if it is one of the peer's recent messages and the
-- asking node, whose ledger is valid, stores no message of its ID.
pub sync_answer_iff :
    (asking peer : Ledger) (limit : ℕ) (m : Message)
    → IsValid asking
    → Mem m (missing_from peer (all_ids asking) limit)
      ↔ (Mem m (recent peer limit) × (¬ Mem m.id (message_ids asking.messages)))
sync_answer_iff asking peer limit m v = (
  λ mem.
      let (there, new) = (missing_from_iff peer (all_ids asking) limit m).0 mem in
      (there, λ k. new ((all_ids_iff asking m.id v).1 k)),
  λ p.
      (missing_from_iff peer (all_ids asking) limit m).1
        (p.0, λ k. p.1 ((all_ids_iff asking m.id v).0 k)),
)

-- A message with a copy of its clock, as `Recent` hands it out.
abbrev pub detached : Message → Message
detached msg = record msg { vector_clock = copy msg.vector_clock }

-- `Recent` hands out copies of the last messages.
pub recent_split :
    (l : Ledger) (limit : ℕ)
    → 0 < limit
    → (older : List Message) × (latest : List Message) × (older ++ latest ≡ l.messages)
      × (length latest ≡ (if ltb limit (length l.messages) then limit else length l.messages))
      × (recent l limit ≡ map detached latest)
unfolding recent clone_message
recent_split l limit some_limit =
    let n = length l.messages in
    let start = n - kept l limit in
    (
      take start l.messages,
      drop start l.messages,
      take-append-drop start l.messages,
      ground (arith, length-drop start l.messages),
      refl,
    )
