-- ===== src/Common.antt =====
-- The names that the other modules share: those of the libraries, passed on, and those of the
-- children: Boolean tests and the conditional, lists over the native numbers, results with errors.
mod Tests
mod Lists
mod Outcome
mod Clock
mod Text
mod Sort
pub mod Int
pub use Tests.*
pub use Lists.*
unfoldable pub use Sort.{sort, insert_by, sorted_unique}
pub use Sort.{count-sort, length-sort}
pub use Outcome.*
pub use Clock.{
  Time, valid_time, is_zero, add_nanos, format_time, parse_time, nanos_per_second, Stamp,
}
pub use Clock.{
  format_le, format_lt, stamp_le_lt, stamp_le_of_second, stamp_le-whole_second,
  stamp_le-after_whole_second, text_le,
}
unfoldable pub use Clock.{format_nano, stamp_le}
unfoldable pub use Text.{
  codes, is_lower_hex, byte_length, valid_digest, has_control, string_lt, join_nul,
}
pub use Prim.Native.Nat.{ℕ, zero, suc, ◌+◌, ◌-◌, ◌*◌, ◌/◌, ◌%◌, ◌^◌, ◌≤◌, ◌<◌}
pub use Prim.Native.String.{String}
pub use mathlib.Core.Path.{◌≡◌, refl, sym, ap, ap₂, ◌∙◌, subst}
pub use mathlib.Core.Logic.{◌≢◌, ◌↔◌, ◌⊎◌, inl, inr}
pub use mathlib.Core.Bool.{Bool, true, false, not, ◌&&◌, ◌||◌}
pub use mathlib.Core.Option.{Option, none, some}
pub use mathlib.Core.List.{List, [], ◌∷◌, ◌++◌, map}
pub use native.Mathlib.Omega.{arith}
pub use text.Mathlib.Text.{◌==◌ as str_eq}
pub use text.Mathlib.TextEquality.{eq_iff}
