-- ===== src/Base/Strings.antt =====
-- Go's `strings` on byte strings, where it does not depend on the Unicode tables: prefixes, search,
-- replacement and trimming by ASCII characters. Empty search texts occur only where a caller says so.
use Prim.Native.Char.{code}
use Prim.Native.Nat.{ℕ, zero, suc, ◌+◌, ◌-◌, ◌/◌, ◌%◌, ◌≤◌}
use Prim.Native.String.{String}
use distributed_multi_agent.Base.Lists.{length, drop}
use distributed_multi_agent.Base.Tests.{ltb, ◌==◌, if◌then◌else◌, Bool-cases, Option-cases}
use distributed_multi_agent.Base.Text.{Bytes, bytes}
use mathlib.Core.Bool.{Bool, true, false, ◌&&◌, ◌||◌}
use mathlib.Core.List.{List, [], ◌∷◌, ◌++◌, reverse}
use mathlib.Core.Logic.{inl, inr}
use mathlib.Core.Option.{Option, none, some}
use mathlib.Core.Path.{◌≡◌, refl}
use native.Mathlib.Omega.{arith}

-- The UTF-8 form of a character.
abbrev pub utf8_char : ℕ → Bytes
utf8_char c =
    if ltb c 0x80
    then c ∷ []
    else if ltb c 0x800
    then (0xc0 + c / 64) ∷ (0x80 + c % 64) ∷ []
    else if ltb c 0x1_0000
    then (0xe0 + c / 4096) ∷ (0x80 + c / 64 % 64) ∷ (0x80 + c % 64) ∷ []
    else (0xf0 + c / 262_144) ∷ (0x80 + c / 4096 % 64) ∷ (0x80 + c / 64 % 64) ∷ (0x80 + c % 64) ∷ []

-- The bytes of any literal.
abbrev pub utf8 : String → Bytes
utf8 String.[] = []
utf8 (String.◌∷◌ c s) = utf8_char (code c) ++ utf8 s

-- `strings.HasPrefix`, with the prefix first.
unfoldable pub has_prefix : Bytes → Bytes → Bool
has_prefix [] s = true
has_prefix (c ∷ cs) [] = false
has_prefix (c ∷ cs) (d ∷ ds) = c == d && has_prefix cs ds

-- `strings.Contains`.
unfoldable pub contains : Bytes → Bytes → Bool
contains [] part = has_prefix part []
contains (c ∷ s) part = has_prefix part (c ∷ s) || contains s part

-- The result of `Index` one byte further on.
unfoldable pub shift_index : Option ℕ → Option ℕ
shift_index none = none
shift_index (some i) = some (suc i)

-- `strings.Index`, with `none` for -1.
unfoldable pub index_of : Bytes → Bytes → Option ℕ
index_of [] part = if has_prefix part [] then some 0 else none
index_of (c ∷ s) part =
    let rest = index_of s part in if has_prefix part (c ∷ s) then some 0 else shift_index rest

-- `strings.LastIndex`.
unfoldable pub last_index_of : Bytes → Bytes → Option ℕ
last_index_of [] part = if has_prefix part [] then some 0 else none
last_index_of (c ∷ s) part = elim (last_index_of s part) [
  | some i ↦ some (suc i)
  | none ↦ if has_prefix part (c ∷ s) then some 0 else none
]

-- The rest of `ReplaceAll` where `k` bytes of an occurrence are still to be skipped.
unfoldable pub replace_from : Bytes → Bytes → ℕ → Bytes → Bytes
replace_from old new k [] = []
replace_from old new (suc k) (c ∷ cs) = replace_from old new k cs
replace_from old new zero (c ∷ cs) =
    let hit = has_prefix old (c ∷ cs) in
    let rest = replace_from old new (if hit then length old - 1 else 0) cs in
    if hit then new ++ rest else c ∷ rest

-- `strings.ReplaceAll`, for a text `old` that is not empty.
unfoldable pub replace_all : Bytes → Bytes → Bytes → Bytes
replace_all s old new = replace_from old new 0 s

unfoldable pub has_byte : ℕ → Bytes → Bool
has_byte c [] = false
has_byte c (d ∷ ds) = c == d || has_byte c ds

-- `strings.TrimLeft` by a set of ASCII characters.
unfoldable pub trim_left : Bytes → Bytes → Bytes
trim_left [] cutset = []
trim_left (c ∷ s) cutset =
    let rest = trim_left s cutset in if has_byte c cutset then rest else c ∷ s

-- `strings.Trim` by a set of ASCII characters.
unfoldable pub trim : Bytes → Bytes → Bytes
trim s cutset = reverse (trim_left (reverse (trim_left s cutset)) cutset)

-- `strings.TrimPrefix`, with the prefix second.
unfoldable pub trim_prefix : Bytes → Bytes → Bytes
trim_prefix s prefix = if has_prefix prefix s then drop (length prefix) s else s

-- `strings.Split(s, "\n")`, with the current line before the rest.
unfoldable pub split_lines_from : Bytes → Bytes → List Bytes
split_lines_from line [] = line ∷ []
split_lines_from line (c ∷ s) =
    let newline = c == 10 in
    let rest = split_lines_from (if newline then [] else line ++ (c ∷ [])) s in
    if newline then line ∷ rest else rest

unfoldable pub split_lines : Bytes → List Bytes
split_lines s = split_lines_from [] s

-- `slice[len(slice)-n:]` where the slice is longer than `n`, and else all of it.
unfoldable pub last_n : {A : Type 0} → ℕ → List A → List A
last_n n xs = if ltb n (length xs) then drop (length xs - n) xs else xs

-- The text as `Index` sees it: `part` stands at the place `i`.
abbrev pub OccursAt : Bytes → ℕ → Bytes → Type 0
OccursAt s i part = (i ≤ length s) × (has_prefix part (drop i s) ≡ true)

pub index_of-OccursAt : (s part : Bytes) (i : ℕ) → index_of s part ≡ some i → OccursAt s i part
unfolding index_of shift_index drop
index_of-OccursAt [] part i h = elim (Bool-cases (has_prefix part [])) [
  | inl e ↦ let first : i ≡ 0 = ground arith in rw first (omega arith, e)
  | inr e ↦ absurd (ground arith)
]
index_of-OccursAt (c ∷ s) part i h = elim (Bool-cases (has_prefix part (c ∷ s))) [
  | inl e ↦ let first : i ≡ 0 = ground arith in rw first (omega arith, e)
  | inr e ↦ elim (Option-cases (index_of s part)) [
    | inl none_there ↦ absurd (ground arith)
    | inr (j, there) ↦
        let next : i ≡ suc j = ground arith in
        let (within, prefix) = index_of-OccursAt s part j there in rw next (omega arith, prefix)
  ]
]

pub length-has_prefix : (part s : Bytes) → has_prefix part s ≡ true → length part ≤ length s
unfolding has_prefix
length-has_prefix [] s h = omega arith
length-has_prefix (c ∷ cs) [] h = absurd (ground arith)
length-has_prefix (c ∷ cs) (d ∷ ds) h = ground (arith, length-has_prefix cs ds)

replace_all-test : replace_all (bytes "a@all@allb") (bytes "@all") (bytes "x") ≡ bytes "axxb"
unfolding replace_all replace_from has_prefix
replace_all-test = refl

trim-test : trim (bytes "[<hi>] ") (bytes "[]<> ") ≡ bytes "hi"
unfolding trim trim_left has_byte
trim-test = refl

utf8-test : utf8 "é大" ≡ 0xc3 ∷ 0xa9 ∷ 0xe5 ∷ 0xa4 ∷ 0xa7 ∷ []
utf8-test = refl
