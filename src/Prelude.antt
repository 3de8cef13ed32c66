-- ===== src/Prelude.antt =====
-- The names that the other modules share: the libraries' names, passed on, and those of the
-- children.
mod Tests
mod Lists
mod Queries
mod Text
mod Outcomes
mod Floats
pub mod Url
pub use Tests.*
pub use Lists.*
pub use Queries.*
unfoldable pub use Text.{
  is_space, strip, lstrip, rstrip, take_chars, drop_prefix, drop_suffix, is_empty, or_else, str_cat,
  split_once, split_all,
}
pub use Text.{take_chars-ne_empty, or_else-ne_empty, cat_cancel, split_once_sound}
pub use Outcomes.*
pub use Floats.*
pub use Prim.Native.Nat.{ℕ, zero, suc, ◌+◌, ◌-◌, ◌*◌, ◌/◌, ◌%◌, ◌^◌, ◌≤◌, ◌<◌, min, max}
pub use Prim.Native.String.{String}
pub use mathlib.Core.Path.{◌≡◌, refl, sym, ap, ◌∙◌}
pub use mathlib.Core.Logic.{◌≢◌, ◌↔◌, ◌⊎◌, inl, inr}
pub use mathlib.Core.Bool.{Bool, true, false, not, ◌&&◌, ◌||◌}
pub use mathlib.Core.Option.{Option, none, some}
pub use mathlib.Core.List.{List, [], ◌∷◌, ◌++◌, map}
pub use native.Mathlib.Omega.{arith}
pub use text.Mathlib.Text.{◌==◌ as str_eq}
pub use text.Mathlib.TextEquality.{eq_iff}
pub use text.Mathlib.TextPositions.{eq_refl}
