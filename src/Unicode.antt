-- ===== src/Unicode.antt =====
-- The case tables of Go's `unicode` package, as `strings.ToLower` and `strings.EqualFold` use them,
-- with `strings.TrimSpace`, `strings.Fields` and `strconv.Quote`, which read those tables too.
use distributed_multi_agent.Base.{◌≡◌, List, Bool, Bytes}

-- `equal_fold_comm` is part of the documented meaning of `EqualFold`: the two texts are equal under
-- one case folding.
pub record Unicode : Type 0 where
  pub to_lower : Bytes → Bytes
  pub to_upper : Bytes → Bytes
  pub equal_fold : Bytes → Bytes → Bool
  pub trim_space : Bytes → Bytes
  pub fields : Bytes → List Bytes
  pub quote : Bytes → Bytes
  pub equal_fold_comm : (a b : Bytes) → equal_fold a b ≡ equal_fold b a
