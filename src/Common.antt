-- ===== src/Common.antt =====
-- Shared names: the libraries', passed on, tests on numbers and texts, results, list predicates.
mod Tests
mod Lists
mod Texts
mod Chars
pub use Tests.*
unfoldable pub use Tests.{◌>>=◌}
pub use Lists.*
pub use Texts.*
pub use Chars.*
unfoldable pub use Chars.{split_on, trim, is_quad, mapped_ipv4}
unfoldable pub use Texts.{
  trim_text, is_blank, parse_int, parse_digits, leading_digits, parse_any_int, parse_any_digits,
  parse_hex, leading_hex,
}
pub use Prim.Native.Nat.{ℕ, zero, suc, ◌+◌, ◌-◌, ◌*◌, ◌/◌, ◌%◌, ◌^◌, ◌≤◌, ◌<◌, min, max}
pub use Prim.Native.String.{String}
pub use mathlib.Core.Path.{◌≡◌, refl, sym, ap, ◌∙◌, subst}
pub use mathlib.Core.Logic.{◌≢◌, ◌↔◌, ◌⊎◌, inl, inr}
pub use mathlib.Core.Bool.{Bool, true, false, not, ◌&&◌, ◌||◌}
pub use mathlib.Core.Option.{Option, none, some}
pub use mathlib.Core.List.{List, [], ◌∷◌, ◌++◌, map}
pub use native.Mathlib.Omega.{arith}
pub use text.Mathlib.Text.{◌==◌ as str_eq}
pub use text.Mathlib.TextEquality.{eq_iff}
pub use text.Mathlib.TextPositions.{eq_refl}
