-- ===== src/Orchestrator/Words/Mentions.antt =====
-- internal/ai/orchestrator.go: the search of `mentionsName` ends, and what it finds is the name.
use distributed_multi_agent.Base.{
  ℕ, zero, suc, ◌+◌, ◌-◌, ◌⊎◌, ◌==◌, ltb, false, ◌≤◌, ◌<◌, ◌≡◌, ◌≢◌, refl, sym, ap, ◌∙◌, inl, inr,
  List, [], ◌∷◌, true, none, some, arith, length, length-drop, length-has_prefix, drop, Bytes,
  Bytes-discrete, has_prefix, index_of, OccursAt, index_of-OccursAt, Bool-cases, Option-cases,
}
use distributed_multi_agent.Orchestrator.Words.{
  byte_at, find_name, is_name_char, mentions_name, name_fuel, stands_alone,
}
use distributed_multi_agent.Unicode.{Unicode}

length-OccursAt :
    (s : Bytes) (i : ℕ) (part : Bytes) → OccursAt s i part → i + length part ≤ length s
length-OccursAt s i part (within, prefix) =
    omega (arith, length-has_prefix part (drop i s) prefix, length-drop i s)

find_name_ends :
    (fuel : ℕ) (text name : Bytes) (idx : ℕ)
    → 0 < length name
    → idx ≤ length text
    → length text < fuel + idx
    → find_name fuel text name idx ≢ none
unfolding find_name
find_name_ends zero text name idx some_name within enough = absurd (omega arith)
find_name_ends (suc fuel) text name idx some_name within enough =
    elim (Option-cases (index_of (drop idx text) name)) [
      | inl e ↦ λ h. ground arith
      | inr (found, e) ↦
          let room =
            length-OccursAt (drop idx text) found name
              (index_of-OccursAt (drop idx text) name found e) in
          let next =
            find_name_ends fuel text name (idx + found + length name) some_name
              (omega (arith, room, length-drop idx text)) (omega arith) in
          λ h. ground (arith, next)
    ]

drop_nil : {A : Type 0} (n : ℕ) → drop {A = A} n [] ≡ []
unfolding drop
drop_nil zero = refl
drop_nil (suc n) = refl

drop-drop : {A : Type 0} (i j : ℕ) (xs : List A) → drop j (drop i xs) ≡ drop (i + j) xs
unfolding drop
drop-drop zero j xs = let e : 0 + j ≡ j = omega arith in ap (λ n. drop n xs) (sym e)
drop-drop (suc i) j [] = drop_nil j ∙ sym (drop_nil (suc i + j))
drop-drop (suc i) j (x ∷ xs) =
    let e : suc i + j ≡ suc (i + j) = omega arith in
    drop-drop i j xs ∙ ap (λ n. drop n (x ∷ xs)) (sym e)

length_of_ne : {A : Type 0} (xs : List A) → xs ≢ [] → 0 < length xs
length_of_ne [] h = absurd (h refl)
length_of_ne (x ∷ xs) h = omega arith

-- No lower-case letter, digit or underscore of ASCII.
abbrev pub IsOutside : ℕ → Type 0
IsOutside c = ((c < 97) ⊎ (122 < c)) × ((c < 48) ⊎ (57 < c)) × (c ≢ 95)

-- The name stands in the text at the place `i`, and on either side of it the text ends or has a byte
-- that belongs to no name.
abbrev pub IsWordAt : Bytes → Bytes → ℕ → Type 0
IsWordAt text name i =
    OccursAt text i name
    × ((i ≡ 0) ⊎ IsOutside (byte_at text (i - 1)))
    × ((i + length name ≡ length text) ⊎ IsOutside (byte_at text (i + length name)))

is_name_char-IsOutside : (c : ℕ) → is_name_char c ≡ false → IsOutside c
unfolding is_name_char
is_name_char-IsOutside c h = (
  elim (Bool-cases (ltb c 97)) [ inl e ↦ inl (ground arith) | inr e ↦ inr (ground arith) ],
  elim (Bool-cases (ltb c 48)) [ inl e ↦ inl (ground arith) | inr e ↦ inr (ground arith) ],
  λ e. ground arith,
)

stands_alone_sides :
    (text : Bytes) (start end : ℕ)
    → stands_alone text start end ≡ true
    → ((start ≡ 0) ⊎ IsOutside (byte_at text (start - 1)))
      × ((end ≡ length text) ⊎ IsOutside (byte_at text end))
unfolding stands_alone
stands_alone_sides text start end h = (
  elim (Bool-cases (start == 0)) [
    | inl e ↦ inl (ground arith)
    | inr e ↦ inr (is_name_char-IsOutside (byte_at text (start - 1)) (ground arith))
  ],
  elim (Bool-cases (end == length text)) [
    | inl e ↦ inl (ground arith)
    | inr e ↦ inr (is_name_char-IsOutside (byte_at text end) (ground arith))
  ],
)

find_name-IsWordAt :
    (fuel : ℕ) (text name : Bytes) (idx : ℕ)
    → idx ≤ length text
    → find_name fuel text name idx ≡ some true
    → (i : ℕ) × IsWordAt text name i
unfolding find_name
find_name-IsWordAt zero text name idx within h = absurd (ground arith)
find_name-IsWordAt (suc fuel) text name idx within h =
    elim (Option-cases (index_of (drop idx text) name)) [
      | inl e ↦ absurd (ground arith)
      | inr (found, e) ↦
          let occurs = index_of-OccursAt (drop idx text) name found e in
          let room = length-OccursAt (drop idx text) found name occurs in
          elim (Bool-cases (stands_alone text (idx + found) (idx + found + length name))) [
            | inl alone ↦
                let (left, right) =
                  stands_alone_sides text (idx + found) (idx + found + length name) alone in
                (
                  idx + found,
                  (
                    (
                      omega (arith, occurs.0, length-drop idx text),
                      sym (ap (has_prefix name) (drop-drop idx found text)) ∙ occurs.1,
                    ),
                    left,
                    right,
                  ),
                )
            | inr other ↦
                find_name-IsWordAt fuel text name (idx + found + length name)
                  (omega (arith, room, length-drop idx text)) (ground arith)
          ]
    ]

module _ (u : Unicode) where
  -- The search for a name ends: with a step for each byte of the text and one more it has an answer,
  -- provided that lowering the case of a text that is not empty leaves something.
  pub mentions_name_ends :
      (text name : Bytes)
      → ((t : Bytes) → t ≢ [] → u.to_lower t ≢ [])
      → mentions_name u (name_fuel u text) text name ≢ none
  unfolding mentions_name
  mentions_name_ends text name keeps = elim (Bytes-discrete (u.trim_space name) []) [
    | yes e ↦ λ h. ground arith
    | no e ↦
        let ends =
          find_name_ends (name_fuel u text) (u.to_lower text) (u.to_lower (u.trim_space name)) 0
            (length_of_ne _ (keeps (u.trim_space name) e)) (omega arith) (omega arith) in
        λ h. ground arith
  ]

  -- Whatever the fuel, a mention that is found is one: the name, trimmed and in lower case, stands in the
  -- text in lower case, and the bytes beside it, where there are any, are no ASCII lower-case letter, digit
  -- or underscore.
  pub mentions_name_found :
      (fuel : ℕ) (text name : Bytes)
      → mentions_name u fuel text name ≡ some true
      → (i : ℕ) × IsWordAt (u.to_lower text) (u.to_lower (u.trim_space name)) i
  unfolding mentions_name
  mentions_name_found fuel text name h =
      find_name-IsWordAt fuel (u.to_lower text) (u.to_lower (u.trim_space name)) 0 (omega arith)
        (ground arith)
