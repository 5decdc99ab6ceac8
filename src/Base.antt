-- ===== src/Base.antt =====
-- The names that the other modules share: the libraries', passed on, and those of its children.
pub mod Tests
pub mod Lists
pub mod Text
pub mod Maps
pub mod Sort
pub mod Results
pub mod Strings
pub use Prim.Native.Nat.{ℕ, zero, suc, ◌+◌, ◌-◌, ◌*◌, ◌/◌, ◌%◌, ◌^◌, ◌≤◌, ◌<◌}
pub use mathlib.Core.Path.{◌≡◌, refl, sym, ap, ◌∙◌, subst}
pub use mathlib.Core.Logic.{◌≢◌, ◌↔◌, ◌⊎◌, inl, inr, ite, if_pos, if_neg}
pub use mathlib.Core.Bool.{Bool, true, false, not, ◌&&◌, ◌||◌}
pub use mathlib.Core.Option.{Option, none, some}
pub use mathlib.Core.List.{List, [], ◌∷◌, ◌++◌, map}
pub use native.Mathlib.Omega.{arith}
unfoldable pub use native.Mathlib.Decide.{ℕ_discrete}
pub use Tests.*
unfoldable pub use Lists.{take, drop}
pub use Lists.{
  All, In, In-append_left, In-append_right, In-append_cases, length, length-append, length-take,
  length-drop, length-reverse, take-append-drop,
}
unfoldable pub use Text.{Bytes-discrete, flip, compare_bytes}
pub use Text.{
  Bytes, bytes, Sign, less, same, greater, compare_bytes-flip, compare_bytes-same,
  compare_bytes_self,
}
unfoldable pub use Maps.{get, put, delete, keys, at, has, include}
pub use Maps.{
  GoMap, StringSet, get-put, get-put_self, get-put_ne, get-delete, at-put, at-put_self, at-put_ne,
  has-include, has-delete, length-put-le, keys_cover, keys_cover_at,
}
unfoldable pub use Sort.{sort_stable, insert_back, sort_loop}
pub use Sort.{sort_stable-perm, length-sort_stable}
unfoldable pub use Results.{
  decimal, decimal_digits, hex_encode, hex_decode, hex_digit, hex_value, hex_pair,
}
pub use Results.{Result, ok, err, ◌>>=◌, wrap, Result-cases, AllBytes, hex_decode-hex_encode}
unfoldable pub use Strings.{
  has_prefix, contains, shift_index, index_of, last_index_of, replace_from, replace_all, has_byte,
  trim_left, trim, trim_prefix, split_lines_from, split_lines, last_n,
}
pub use Strings.{utf8, utf8_char, OccursAt, index_of-OccursAt, length-has_prefix}
