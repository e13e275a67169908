-- ===== src/Shared.antt =====
-- What the other modules share: names of the libraries passed on, Boolean tests, results with error
-- chains, lists measured by native numbers, and the texts of Go's `strings` package.
mod Tests
mod Results
mod Lists
mod Selections
mod Integers
mod Texts
pub use Tests.*
pub use Results.*
pub use Lists.*
pub use Selections.*
pub use Integers.*
unfoldable pub use Texts.{
  trim_space, has_prefix, trim_prefix, trim_suffix_slash, trim_right_slashes, equal_fold,
  byte_length, lower_eq, is_plain, split_commas,
}
pub use Texts.{trim_space-plain, split_commas-plain}
pub use Prim.Native.Nat.{ℕ, zero, suc, ◌+◌, ◌-◌, ◌*◌, ◌/◌, ◌%◌, ◌^◌, ◌≤◌, ◌<◌}
pub use Prim.Native.String.{String}
pub use mathlib.Core.Path.{◌≡◌, refl, sym, ap, ◌∙◌, subst}
pub use mathlib.Core.Logic.{◌≢◌, ◌↔◌, ◌⊎◌, inl, inr}
pub use mathlib.Core.Bool.{Bool, true, false, not, ◌&&◌, ◌||◌}
pub use mathlib.Core.Option.{Option, none, some}
pub use mathlib.Core.List.{List, [], ◌∷◌, ◌++◌, map}
pub use native.Mathlib.Omega.{arith}
pub use text.Mathlib.Text.{◌==◌}
pub use text.Mathlib.TextEquality.{eq_iff}
