-- ===== src/Chat/Invariant.antt =====
-- The invariant of the ledger of internal/chat/ledger.go, and that adding a message keeps it.
use distributed_multi_agent.Base.{
  ℕ, ◌-◌, ◌≤◌, ◌<◌, ◌≡◌, sym, ap, ◌∙◌, subst, ◌↔◌, inl, inr, List, [], ◌∷◌, ◌++◌, map, Bool, true,
  false, Option, none, some, arith, ltb, length, length-drop, take, drop, take-append-drop, Bytes,
  Bytes-discrete, StringSet, get, delete, has, has-include, has-delete, sort_stable-perm,
  Bool-cases,
}
use distributed_multi_agent.Chat.{
  Ledger, new_ledger, clone_message, sort_messages, comes_before, delete_ids, evict, record_message,
  accept, add_with_reason,
}
use distributed_multi_agent.Types.{Message}
use distributed_multi_agent.Unicode.{Unicode}
use mathlib.Core.HLevel.{⊥_prop}
use mathlib.Core.List.Perm
use mathlib.Core.List.{
  Mem, Nodup, Nodup-nil, Nodup-cons, Nodup-append, mem-append, map-append, append-nil, perm_middle,
  not-mem-nil, mem-cons, Perm, mem-cons_self,
}
use mathlib.Core.Logic.Or
use mathlib.Core.Logic.{∥∥₁_prop}

abbrev pub message_ids : List Message → List Bytes
message_ids = map (λ m. m.id)

-- `ids` holds the IDs of the stored messages and no other, no two stored messages have the same
-- ID, and there are never more of them than the limit, which is positive.
pub record IsValid (l : Ledger) : Type 0 where
  pub positive : 0 < l.max
  pub bounded : length l.messages ≤ l.max
  pub indexed : (id : Bytes) → (has l.ids id ≡ true) ↔ Mem id (message_ids l.messages)
  pub distinct : Nodup (message_ids l.messages)

true_not_false : {b : Bool} → b ≡ true → b ≡ false → ⊥
true_not_false p q = cc

no_member : (id : Bytes) → has [] id ≡ true → ⊥
unfolding has get
no_member id h = cc

pub new_ledger-IsValid : (max : ℕ) → IsValid (new_ledger max)
unfolding new_ledger
new_ledger-IsValid max = record {
  positive = ground arith;
  bounded = ground arith;
  indexed = λ id. (λ h. absurd (no_member id h), λ m. absurd (not-mem-nil m));
  distinct = Nodup-nil;
}

is_true_prop : (b : Bool) → IsProp (b ≡ true)
is_true_prop b = hlevel

has-delete_ids :
    (ids : StringSet) (olds : List Message) (id : Bytes)
    → has (delete_ids ids olds) id ≡ true
    → (has ids id ≡ true) × (¬ Mem id (message_ids olds))
unfolding delete_ids
has-delete_ids ids [] id h = (h, not-mem-nil)
has-delete_ids ids (old ∷ olds) id h =
    let (kept, away) = has-delete_ids (delete ids old.id) olds id h in
    (
      ground (arith, has-delete ids old.id id),
      λ m. Or.elim ⊥_prop (mem-cons.0 m) (λ e. ground (arith, has-delete ids old.id id)) away,
    )

has-delete_ids_kept :
    (ids : StringSet) (olds : List Message) (id : Bytes)
    → has ids id ≡ true
    → ¬ Mem id (message_ids olds)
    → has (delete_ids ids olds) id ≡ true
unfolding delete_ids
has-delete_ids_kept ids [] id h away = h
has-delete_ids_kept ids (old ∷ olds) id h away =
    has-delete_ids_kept (delete ids old.id) olds id
      (elim (Bytes-discrete old.id id) [
        | yes e ↦ absurd (away (rw e mem-cons_self))
        | no ne ↦ ground (arith, has-delete ids old.id id)
      ])
      (λ m. away (mem-cons.1 (Or.inr m)))

-- What `evict` needs of the ledger that it is called on.
record IsIndexed (l : Ledger) : Type 0 where
  indexed : (id : Bytes) → (has l.ids id ≡ true) ↔ Mem id (message_ids l.messages)
  distinct : Nodup (message_ids l.messages)

split_ids :
    (n : ℕ) (ms : List Message)
    → message_ids ms ≡ message_ids (take n ms) ++ message_ids (drop n ms)
split_ids n ms = sym (ap message_ids (take-append-drop n ms)) ∙ map-append _ (take n ms) (drop n ms)

delete_taken :
    (l : Ledger) (n : ℕ) (id : Bytes)
    → IsIndexed l
    → (has (delete_ids l.ids (take n l.messages)) id ≡ true)
      ↔ Mem id (message_ids (drop n l.messages))
delete_taken l n id v = (
  λ h.
      let (kept, away) = has-delete_ids l.ids (take n l.messages) id h in
      Or.elim (∥∥₁_prop)
        (mem-append.0 (subst (Mem id) (split_ids n l.messages) ((v.indexed id).0 kept)))
        (λ m. absurd (away m)) (λ m. m),
  λ m.
      has-delete_ids_kept l.ids (take n l.messages) id
        ((v.indexed id).1 (subst (Mem id) (sym (split_ids n l.messages)) (mem-append.1 (Or.inr m))))
        (λ t. (Nodup-append.0 (subst Nodup (split_ids n l.messages) v.distinct)).2 id t m),
)

evict-IsValid : (l : Ledger) → 0 < l.max → IsIndexed l → IsValid (evict l)
unfolding evict
evict-IsValid l pos v = elim (Bool-cases (ltb l.max (length l.messages))) [
  | inl e ↦
      rw (e, evict)
        (record {
          positive = pos;
          bounded = ground (arith, length-drop (length l.messages - l.max) l.messages);
          indexed = λ id. delete_taken l (length l.messages - l.max) id v;
          distinct =
              (Nodup-append.0
                (subst Nodup (split_ids (length l.messages - l.max) l.messages) v.distinct)).1;
        })
  | inr e ↦
      rw (e, evict)
        (record {
          positive = pos;
          bounded = ground arith;
          indexed = v.indexed;
          distinct = v.distinct;
        })
]

module _ (u : Unicode) where
  recorded_ids :
      (l : Ledger) (msg : Message)
      → Perm (message_ids (record_message u l msg).messages) (msg.id ∷ message_ids l.messages)
  unfolding record_message sort_messages clone_message
  recorded_ids l msg =
      Perm.trans
        (Perm.map _ (sort_stable-perm (comes_before u) (l.messages ++ (clone_message msg ∷ []))))
        (rw map-append
          (Perm.trans (perm_middle (message_ids l.messages) []) (rw append-nil (Perm.refl _))))

  record_message-IsIndexed :
      (l : Ledger) (msg : Message)
      → IsValid l
      → has l.ids msg.id ≡ false
      → IsIndexed (record_message u l msg)
  unfolding record_message
  record_message-IsIndexed l msg v fresh = record {
    indexed = λ id. (
      λ h. (Perm.mem_iff (recorded_ids l msg)).1 (elim (Bytes-discrete msg.id id) [
        | yes e ↦ rw e mem-cons_self
        | no ne ↦
            mem-cons.1 (Or.inr ((v.indexed id).0 (ground (arith, has-include l.ids msg.id id))))
      ]),
      λ m.
          Or.elim (is_true_prop _) (mem-cons.0 ((Perm.mem_iff (recorded_ids l msg)).0 m))
            (λ e. ground (arith, has-include l.ids msg.id id))
            (λ old. ground (arith, (v.indexed id).1 old, has-include l.ids msg.id id)),
    );
    distinct =
        Perm.nodup (Perm.symm (recorded_ids l msg))
          (Nodup-cons.1 (λ m. absurd (true_not_false ((v.indexed msg.id).1 m) fresh), v.distinct));
  }

  accept-IsValid :
      (l : Ledger) (msg : Message) → IsValid l → has l.ids msg.id ≡ false → IsValid (accept u l msg)
  unfolding accept record_message
  accept-IsValid l msg v fresh =
      let w =
        evict-IsValid (record_message u l msg) v.positive
          (record_message-IsIndexed l msg v fresh) in
      record {
        positive = w.positive;
        bounded = w.bounded;
        indexed = w.indexed;
        distinct = w.distinct;
      }

  -- `AddWithReason` keeps the invariant on every branch, whatever message it is given.
  pub add_with_reason-IsValid :
      (l : Ledger) (msg : Option Message) → IsValid l → IsValid (add_with_reason u l msg).0
  unfolding add_with_reason
  add_with_reason-IsValid l none v = v
  add_with_reason-IsValid l (some msg) v = elim (Bool-cases (has l.ids msg.id)) [
    | inl e ↦ ground arith
    | inr e ↦ ground (arith, accept-IsValid l msg v e)
  ]
