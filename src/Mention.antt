-- ===== src/Mention.antt =====
-- internal/types/mention.go: the names that a message mentions. A nil slice and an empty one are one
-- value. The regular expression is a parameter.
pub mod Names
use distributed_multi_agent.Base.{
  ℕ, List, [], ◌∷◌, ◌++◌, Bool, true, false, ◌&&◌, ◌||◌, ite, if◌then◌else◌, ◌==◌, Bytes, bytes,
  Bytes-discrete, StringSet, has, include, Sign, less, same, greater, compare_bytes, sort_stable,
  contains,
}
use distributed_multi_agent.Unicode.{Unicode}

module _ (u : Unicode) where
  -- `name == "" || strings.EqualFold(name, "all")`.
  abbrev pub is_skipped : Bytes → Bool
  is_skipped name = ite (Bytes-discrete name []) true (u.equal_fold name (bytes "all"))

  -- The loop of `ParseMentions` over the names that the expression matched.
  unfoldable pub parse_loop : List Bytes → StringSet → List Bytes → Bool → List Bytes × Bool
  parse_loop [] seen mentions mention_all = (mentions, mention_all)
  parse_loop (text ∷ texts) seen mentions mention_all =
      let name = u.trim_space text in
      let old = is_skipped name || has seen (u.to_lower name) in
      let is_all = ite (Bytes-discrete name []) false (u.equal_fold name (bytes "all")) in
      parse_loop texts (if old then seen else include seen (u.to_lower name))
        (if old then mentions else mentions ++ (name ∷ [])) (mention_all || is_all)

  -- `ParseMentions`; `find` gives the first group of each match of `mentionRe`.
  unfoldable pub parse_mentions : (Bytes → List Bytes) → Bytes → List Bytes × Bool
  parse_mentions find content = elim (find content) [
    | [] ↦ ([], contains (u.to_lower content) (bytes "@all"))
    | text ∷ texts ↦ parse_loop (text ∷ texts) [] [] false
  ]

  unfoldable pub mentioned : List Bytes → Bytes → Bool
  mentioned [] name = false
  mentioned (mention ∷ mentions) name = u.equal_fold mention name || mentioned mentions name

  -- The loop of `NormalizeMentions`.
  unfoldable pub normalize_loop : List Bytes → StringSet → List Bytes → List Bytes
  normalize_loop [] seen out = out
  normalize_loop (text ∷ texts) seen out =
      let mention = u.trim_space text in
      let old = is_skipped mention || has seen (u.to_lower mention) in
      normalize_loop texts (if old then seen else include seen (u.to_lower mention))
        (if old then out else out ++ (mention ∷ []))

  -- The function handed to `slices.SortFunc`, as a test for `less`.
  unfoldable pub mention_before : Bytes → Bytes → Bool
  mention_before a b = elim (compare_bytes (u.to_lower a) (u.to_lower b)) [
    | less ↦ true
    | same ↦ false
    | greater ↦ false
  ]

  -- `NormalizeMentions`. No two of the sorted mentions are equal in lower case, so that every sort
  -- gives the same list.
  unfoldable pub normalize_mentions : List Bytes → List Bytes
  normalize_mentions mentions = sort_stable mention_before (normalize_loop mentions [] [])
