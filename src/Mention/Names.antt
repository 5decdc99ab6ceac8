-- ===== src/Mention/Names.antt =====
-- internal/types/mention.go: which names `NormalizeMentions` keeps.
use distributed_multi_agent.Base.{
  ◌≡◌, refl, sym, ap, ◌∙◌, subst, ◌↔◌, inl, inr, List, [], ◌∷◌, ◌++◌, map, Bool, true, false, arith,
  if◌then◌else◌, Bytes, Bytes-discrete, StringSet, get, has, include, has-include, sort_stable-perm,
  Bool-cases,
}
use distributed_multi_agent.Mention.{is_skipped, mention_before, normalize_loop, normalize_mentions}
use distributed_multi_agent.Unicode.{Unicode}
use mathlib.Core.List.Perm
use mathlib.Core.List.{
  Mem, Nodup, Nodup-nil, Nodup-cons, mem-append, map-append, append_assoc, append-nil, mem-cons,
  mem-cons_self, not-mem-nil, Perm, perm_middle,
}
use mathlib.Core.Logic.Or
use mathlib.Core.Logic.{∥∥₁_prop}

is_true_prop : (b : Bool) → IsProp (b ≡ true)
is_true_prop b = hlevel

not_both : {b : Bool} → b ≡ true → b ≡ false → ⊥
not_both p q = cc

-- An element that a list has already adds nothing to it.
known_more :
    (k x : Bytes) (xs ys : List Bytes) → Mem x xs → Mem k (xs ++ ys) ↔ Mem k (xs ++ (x ∷ ys))
known_more k x xs ys known = (
  λ m.
      Or.elim (∥∥₁_prop) (mem-append.0 m) (λ a. mem-append.1 (Or.inl a))
        (λ b. mem-append.1 (Or.inr (mem-cons.1 (Or.inr b)))),
  λ m.
      Or.elim (∥∥₁_prop) (mem-append.0 m) (λ a. mem-append.1 (Or.inl a))
        (λ b.
          Or.elim (∥∥₁_prop) (mem-cons.0 b)
            (λ e. (mem-append {s = xs}).1 (Or.inl (subst (λ z. Mem z xs) (sym e) known)))
            (λ c. mem-append.1 (Or.inr c))),
)

-- The mentions in lower case and without their surrounding blanks, but for the empty ones and
-- `all`.
abbrev pub wanted : Unicode → List Bytes → List Bytes
wanted u [] = []
wanted u (text ∷ texts) =
    let rest = wanted u texts in
    if is_skipped u (u.trim_space text) then rest else u.to_lower (u.trim_space text) ∷ rest

module _ (u : Unicode) where
  -- `seen` holds the output in lower case, where nothing occurs twice.
  record IsSeen (seen : StringSet) (out : List Bytes) : Type 0 where
    indexed : (k : Bytes) → (has seen k ≡ true) ↔ Mem k (map u.to_lower out)
    distinct : Nodup (map u.to_lower out)

  -- What the loop makes of the rest of the mentions.
  record IsKept (texts out result : List Bytes) : Type 0 where
    members :
        (k : Bytes) → Mem k (map u.to_lower result) ↔ Mem k (map u.to_lower out ++ wanted u texts)
    distinct : Nodup (map u.to_lower result)

  lower_snoc :
      (out : List Bytes) (name : Bytes)
      → map u.to_lower (out ++ (name ∷ [])) ≡ map u.to_lower out ++ (u.to_lower name ∷ [])
  lower_snoc out name = map-append u.to_lower out (name ∷ [])

  snoc-perm :
      (out : List Bytes) (name : Bytes)
      → Perm (map u.to_lower (out ++ (name ∷ []))) (u.to_lower name ∷ map u.to_lower out)
  snoc-perm out name =
      rw (lower_snoc out name)
        (Perm.trans (perm_middle (map u.to_lower out) []) (rw append-nil (Perm.refl _)))

  snoc-IsSeen :
      (seen : StringSet) (out : List Bytes) (name : Bytes)
      → IsSeen seen out
      → has seen (u.to_lower name) ≡ false
      → IsSeen (include seen (u.to_lower name)) (out ++ (name ∷ []))
  snoc-IsSeen seen out name v fresh = record {
    indexed = λ k. (
      λ h. (Perm.mem_iff (snoc-perm out name)).1 (elim (Bytes-discrete (u.to_lower name) k) [
        | yes e ↦ rw e mem-cons_self
        | no ne ↦
            mem-cons.1
              (Or.inr ((v.indexed k).0 (ground (arith, has-include seen (u.to_lower name) k))))
      ]),
      λ m.
          Or.elim (is_true_prop _) (mem-cons.0 ((Perm.mem_iff (snoc-perm out name)).0 m))
            (λ e. ground (arith, has-include seen (u.to_lower name) k))
            (λ old. ground (arith, (v.indexed k).1 old, has-include seen (u.to_lower name) k)),
    );
    distinct =
        Perm.nodup (Perm.symm (snoc-perm out name))
          (Nodup-cons.1 (λ m. not_both ((v.indexed (u.to_lower name)).1 m) fresh, v.distinct));
  }

  snoc_wanted :
      (out texts : List Bytes) (name : Bytes)
      → map u.to_lower (out ++ (name ∷ [])) ++ wanted u texts
        ≡ map u.to_lower out ++ (u.to_lower name ∷ wanted u texts)
  snoc_wanted out texts name =
      ap (λ xs. xs ++ wanted u texts) (lower_snoc out name)
      ∙ append_assoc (map u.to_lower out) (u.to_lower name ∷ []) (wanted u texts)

  loop-IsKept :
      (texts : List Bytes) (seen : StringSet) (out : List Bytes)
      → IsSeen seen out
      → IsKept texts out (normalize_loop u texts seen out)
  unfolding normalize_loop
  loop-IsKept [] seen out v = record {
    members = λ k. rw append-nil (λ m. m, λ m. m);
    distinct = v.distinct;
  }
  loop-IsKept (text ∷ texts) seen out v =
      let name = u.trim_space text in
      elim (Bool-cases (is_skipped u name)) [
        | inl skip ↦ rw skip (
            let rest = loop-IsKept texts seen out v in
            record { members = λ k. rw skip (rest.members k); distinct = rest.distinct })
        | inr keep ↦ elim (Bool-cases (has seen (u.to_lower name))) [
          | inl old ↦
              rw (keep, old)
                (let rest = loop-IsKept texts seen out v in
                  record {
                    members = λ k.
                        let more =
                          known_more k (u.to_lower name) (map u.to_lower out) (wanted u texts)
                            ((v.indexed (u.to_lower name)).0 old) in
                        rw keep
                          (λ m. more.0 ((rest.members k).0 m), λ m. (rest.members k).1 (more.1 m));
                    distinct = rest.distinct;
                  })
          | inr fresh ↦
              rw (keep, fresh)
                (let rest =
                    loop-IsKept texts (include seen (u.to_lower name)) (out ++ (name ∷ []))
                      (snoc-IsSeen seen out name v fresh) in
                  record {
                    members = λ k.
                        let same = snoc_wanted out texts name in
                        rw keep (
                          λ m. subst (Mem k) same ((rest.members k).0 m),
                          λ m. (rest.members k).1 (subst (Mem k) (sym same) m),
                        );
                    distinct = rest.distinct;
                  })
        ]
      ]

  new-IsSeen : IsSeen [] []
  unfolding has get
  new-IsSeen = record {
    indexed = λ k. (λ h. absurd (not_both h refl), λ m. absurd (not-mem-nil m));
    distinct = Nodup-nil;
  }

  -- `NormalizeMentions` gives no two mentions that are equal in lower case, and in lower case they are
  -- exactly the given ones without their surrounding blanks, but for the empty ones and `all`.
  pub normalize_mentions_lem :
      (mentions : List Bytes) (k : Bytes)
      → Nodup (map u.to_lower (normalize_mentions u mentions))
        × (Mem k (map u.to_lower (normalize_mentions u mentions)) ↔ Mem k (wanted u mentions))
  unfolding normalize_mentions
  normalize_mentions_lem mentions k =
      let kept = loop-IsKept mentions [] [] new-IsSeen in
      let sorted =
        Perm.map u.to_lower
          (sort_stable-perm (mention_before u) (normalize_loop u mentions [] [])) in
      (
        Perm.nodup (Perm.symm sorted) kept.distinct,
        (
          λ m. (kept.members k).0 ((Perm.mem_iff sorted).0 m),
          λ m. (Perm.mem_iff sorted).1 ((kept.members k).1 m),
        ),
      )
