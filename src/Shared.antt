-- ===== src/Shared.antt =====
-- What the modules share: library names passed on, Boolean tests, lists and options.
mod Tests
mod Lists
mod Text
mod Numbers
mod Maps
pub use Tests.*
pub use Lists.*
pub use Maps.*
unfoldable pub use Text.{trim, to_upper_case, to_lower_case, before, slice_to, to_text}
pub use Text.{concat}
unfoldable pub use Numbers.{number_of}
pub use Numbers.{number_of-to_text}
pub use Prim.Native.Nat.{ℕ, zero, suc, ◌+◌, ◌-◌, ◌*◌, ◌/◌, ◌%◌, ◌^◌, ◌≤◌, ◌<◌, min, max}
pub use Prim.Native.String.{String}
pub use mathlib.Core.Path.{◌≡◌, refl, sym, ap, ◌∙◌, subst}
pub use mathlib.Core.Logic.{◌≢◌, ◌↔◌, ◌⊎◌, inl, inr}
pub use mathlib.Core.Bool.{Bool, true, false, not, ◌&&◌, ◌||◌}
pub use mathlib.Core.Option.{Option, none, some}
pub use mathlib.Core.List.{List, [], ◌∷◌, ◌++◌, map, filter_map}
pub use native.Mathlib.Omega.{arith}
pub use text.Mathlib.Text.{◌==◌}
pub use text.Mathlib.TextEquality.{eq_iff}
pub use text.Mathlib.TextPositions.{eq_refl}
