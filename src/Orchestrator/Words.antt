-- ===== src/Orchestrator/Words.antt =====
-- internal/ai/orchestrator.go: what the text of a message says to a persona, and how a reply is
-- tidied. A slice out of range, which panics, is `none`.

pub mod Mentions
pub mod Prefix
pub mod Repeats
use distributed_multi_agent.Base.{
  ℕ, zero, suc, ◌+◌, ◌-◌, List, [], ◌∷◌, Bool, true, false, not, ◌&&◌, ◌||◌, Option, none, some,
  ite, ltb, leb, ◌==◌, if◌then◌else◌, length, drop, take, Bytes, bytes, Bytes-discrete, StringSet,
  has, include, has_prefix, contains, index_of, last_index_of, replace_all, trim_left, trim, utf8,
}
use distributed_multi_agent.Batcher.{ChatMessage}
use distributed_multi_agent.Mention.{mentioned}
use distributed_multi_agent.Orchestrator.Float.{Float}
use distributed_multi_agent.Unicode.{Unicode}
use mathlib.Core.List.{reverse}
use distributed_multi_agent.Validate.{eqb, is_empty}

unfoldable pub is_name_char : ℕ → Bool
is_name_char r = (leb b'a' r && leb r b'z') || ((leb b'0' r && leb r b'9') || r == b'_')

-- `s[i]`, for an index in range.
unfoldable pub byte_at : Bytes → ℕ → ℕ
byte_at s i = elim (drop i s) [ [] ↦ 0 | c ∷ cs ↦ c ]

-- Whether no character of a name stands on either side of the text between `start` and `end`.
unfoldable pub stands_alone : Bytes → ℕ → ℕ → Bool
stands_alone text start end =
    (start == 0 || not (is_name_char (byte_at text (start - 1))))
    && (end == length text || not (is_name_char (byte_at text end)))

-- The loop of `mentionsName` from `idx` on; `none` where the fuel does not last.
unfoldable pub find_name : ℕ → Bytes → Bytes → ℕ → Option Bool
find_name zero text name idx = none
find_name (suc fuel) text name idx = elim (index_of (drop idx text) name) [
  | none ↦ some false
  | some found ↦
      let rest = find_name fuel text name (idx + found + length name) in
      if stands_alone text (idx + found) (idx + found + length name) then some true else rest
]

-- The loop over the cues, which ends with the first one that the text has.
unfoldable pub has_cue : Bytes → List Bytes → Bool
has_cue lower [] = false
has_cue lower (cue ∷ cues) = contains lower cue || has_cue lower cues

abbrev pub group_cues : List Bytes
group_cues =
    bytes "@all"
    ∷ bytes "anyone"
    ∷ bytes "everyone"
    ∷ bytes "anybody"
    ∷ bytes "you guys"
    ∷ bytes "guys"
    ∷ utf8 "大家"
    ∷ utf8 "有人"
    ∷ utf8 "你們"
    ∷ utf8 "各位"
    ∷ utf8 "晚安"
    ∷ utf8 "早安"
    ∷ utf8 "哈囉"
    ∷ bytes "hello"
    ∷ bytes "hi all"
    ∷ []

abbrev pub question_cues : List Bytes
question_cues =
    bytes "how"
    ∷ bytes "what"
    ∷ bytes "why"
    ∷ bytes "who"
    ∷ bytes "when"
    ∷ bytes "where"
    ∷ bytes "do you"
    ∷ bytes "would you"
    ∷ bytes "can you"
    ∷ utf8 "你覺得"
    ∷ utf8 "怎麼"
    ∷ utf8 "為什麼"
    ∷ utf8 "誰"
    ∷ utf8 "要不要"
    ∷ utf8 "可以嗎"
    ∷ utf8 "好嗎"
    ∷ utf8 "嗎"
    ∷ []

unfoldable pub include_words : StringSet → List Bytes → StringSet
include_words set [] = set
include_words set (w ∷ ws) = include_words (include set w) ws

-- The words of the list that the set has, counted.
unfoldable pub count_matches : StringSet → List Bytes → ℕ
count_matches set [] = 0
count_matches set (w ∷ ws) = let rest = count_matches set ws in if has set w then 1 + rest else rest

-- The part of the answer between its first and its last brace.
unfoldable pub json_part : Bytes → Bytes
json_part raw = elim (index_of raw (bytes "{")) [
  | none ↦ raw
  | some start ↦ elim (last_index_of raw (bytes "}")) [
    | none ↦ raw
    | some end ↦ if ltb start end then drop start (take (end + 1) raw) else raw
  ]
]

module _ (u : Unicode) where
  unfoldable pub mentions_name : ℕ → Bytes → Bytes → Option Bool
  mentions_name fuel text name =
      if is_empty (u.trim_space name)
      then some false
      else find_name fuel (u.to_lower text) (u.to_lower (u.trim_space name)) 0

  -- The fuel is a step for each byte, and one to find that nothing is left.
  abbrev pub name_fuel : Bytes → ℕ
  name_fuel text = suc (length (u.to_lower text))

  unfoldable pub message_mentions_persona : ChatMessage → Bytes → Option Bool
  message_mentions_persona msg self_name =
      if mentioned u msg.mentions self_name
      then some true
      else mentions_name (name_fuel msg.content) msg.content self_name

  unfoldable pub is_open_group_prompt : Bytes → Bool
  is_open_group_prompt content =
      let lower = u.to_lower (u.trim_space content) in
      if is_empty lower then false else has_cue lower group_cues

  unfoldable pub looks_like_question : Bytes → Bool
  looks_like_question content =
      let lower = u.to_lower (u.trim_space content) in
      if is_empty lower
      then false
      else if contains lower (bytes "?") || contains lower (utf8 "？")
      then true
      else has_cue lower question_cues

  unfoldable pub fallback_reply : Bytes → Bytes
  fallback_reply latest =
      let lower = u.to_lower latest in
      if contains lower (bytes "morning")
      then bytes "Good morning everyone!"
      else if contains lower (bytes "night") || contains lower (utf8 "晚安")
      then bytes "Good night everyone!"
      else if contains lower (bytes "play") || contains lower (bytes "csgo")
      then bytes "I'm down!"
      else if contains lower (bytes "hello") || contains lower (bytes "hi")
      then bytes "Hey everyone!"
      else bytes "Sounds good!"

  -- `cleanReply` from the second `TrimSpace` on.
  unfoldable pub clean_marks : Bytes → Bytes
  clean_marks s =
      let bare =
        u.trim_space (replace_all (replace_all s (bytes "[SILENCE]") []) (bytes "[silence]") []) in
      if u.equal_fold bare (bytes "[No reply text provided for this message.]") then [] else bare

  unfoldable pub clean_reply : Bytes → Bool → Bytes
  clean_reply text mentioned =
      let s = trim (u.trim_space text) (bytes "\"'` ") in
      if is_empty s
      then []
      else if not mentioned && eqb (u.to_upper (trim s (bytes "[]<>()\"'*_ .\n"))) (bytes "SILENCE")
      then []
      else clean_marks s

  unfoldable pub strip_name_prefix : Bytes → Bytes → Option Bytes
  strip_name_prefix s name =
      if has_prefix (u.to_lower name) (u.to_lower s)
      then if leb (length name) (length s)
        then (let rest = trim_left (drop (length name) s) (bytes ": \t-") in
            if is_empty rest then some s else some rest)
        else none
      else some s

  unfoldable pub similarity : (f : Float) → Bytes → Bytes → f.carrier
  similarity f a b =
      let words_a = u.fields a in
      let words_b = u.fields b in
      if length words_a == 0 || length words_b == 0
      then f.hundredths 0
      else f.div (f.of_nat (count_matches (include_words [] words_a) words_b)) (
          f.of_nat
            (if ltb (length words_a) (length words_b) then length words_b else length words_a))

  -- Whether the two texts are the same reply.
  unfoldable pub is_same_reply : Float → Bytes → Bytes → Bool
  is_same_reply f new_lower old_lower =
      eqb new_lower old_lower
      || ((contains new_lower old_lower || contains old_lower new_lower)
          || f.lt (f.hundredths 70) (similarity f new_lower old_lower))

  -- The loop of `isDuplicate`, on the messages from the last one on, after `count` of the persona's own.
  unfoldable pub has_duplicate : Float → Bytes → Bytes → ℕ → List ChatMessage → Bool
  has_duplicate f new_lower self_name count [] = false
  has_duplicate f new_lower self_name count (m ∷ ms) =
      let own = m.is_ai && u.equal_fold m.sender_name self_name in
      let rest = has_duplicate f new_lower self_name (if own then count + 1 else count) ms in
      if ltb count 5
      then if own && is_same_reply f new_lower (u.to_lower (u.trim_space m.content))
        then true
        else rest
      else false

  unfoldable pub is_duplicate : Float → Bytes → List ChatMessage → Bytes → Bool
  is_duplicate f new_resp history self_name =
      has_duplicate f (u.to_lower (u.trim_space new_resp)) self_name 0 (reverse history)
