-- ===== src/Orchestrator/Words/Prefix.antt =====
-- internal/ai/orchestrator.go: where `stripNamePrefix` slices a text, and what it leaves of it.
use distributed_multi_agent.Base.{
  ◌<◌, ◌≡◌, ◌≢◌, refl, ap, ◌∙◌, ◌↔◌, ◌⊎◌, inl, inr, [], ◌∷◌, ◌++◌, true, none, some, arith, length,
  length-has_prefix, take, drop, take-append-drop, Bytes, bytes, has_prefix, Bool-cases, trim_left,
  has_byte,
}
use distributed_multi_agent.Orchestrator.Words.{strip_name_prefix}
use distributed_multi_agent.Unicode.{Unicode}
use mathlib.Core.List.{append_assoc}

trim_left_end : (s cutset : Bytes) → (cut : Bytes) × (cut ++ trim_left s cutset ≡ s)
unfolding trim_left
trim_left_end [] cutset = ([], refl)
trim_left_end (c ∷ s) cutset = elim (Bool-cases (has_byte c cutset)) [
  | inl e ↦ let (cut, rest) = trim_left_end s cutset in (c ∷ cut, ground arith)
  | inr e ↦ ([], ground arith)
]

module _ (u : Unicode) where
  -- `stripNamePrefix` slices out of range, and so panics, exactly if the reply begins with the name in
  -- lower case although the name has more bytes than the reply.
  pub strip_name_prefix_panics :
      (s name : Bytes)
      → (strip_name_prefix u s name ≡ none)
        ↔ ((has_prefix (u.to_lower name) (u.to_lower s) ≡ true) × (length s < length name))
  unfolding strip_name_prefix
  strip_name_prefix_panics s name = ground arith

  -- It does not panic if the case of a text can be lowered without a change of its length.
  pub strip_name_prefix_total :
      (s name : Bytes)
      → ((t : Bytes) → length (u.to_lower t) ≡ length t)
      → strip_name_prefix u s name ≢ none
  strip_name_prefix_total s name keeps h =
      let (prefix, short) = (strip_name_prefix_panics s name).0 h in
      omega (arith, length-has_prefix (u.to_lower name) (u.to_lower s) prefix, keeps s, keeps name)

  strip_name_prefix_cases :
      (s name rest : Bytes)
      → strip_name_prefix u s name ≡ some rest
      → (rest ≡ s) ⊎ ((rest ≢ []) × (rest ≡ trim_left (drop (length name) s) (bytes ": \t-")))
  unfolding strip_name_prefix
  strip_name_prefix_cases s name rest h = ground arith

  -- What is left of a reply that is not empty is not empty, and is the end of the reply.
  pub strip_name_prefix_end :
      (s name rest : Bytes)
      → s ≢ []
      → strip_name_prefix u s name ≡ some rest
      → (rest ≢ []) × ((cut : Bytes) × (cut ++ rest ≡ s))
  strip_name_prefix_end s name rest some_text h = elim (strip_name_prefix_cases s name rest h) [
    | inl e ↦ rw e (some_text, ([], refl))
    | inr (some_rest, e) ↦
        let (cut, trimmed) = trim_left_end (drop (length name) s) (bytes ": \t-") in
        (
          some_rest,
          (
            take (length name) s ++ cut,
            append_assoc (take (length name) s) cut rest
                ∙ ap (λ t. take (length name) s ++ (cut ++ t)) e
                ∙ ap (λ t. take (length name) s ++ t) trimmed
                ∙ take-append-drop (length name) s,
          ),
        )
  ]
