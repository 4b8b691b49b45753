-- ===== src/Base.antt =====
-- The names that the other modules share: the library's, passed on, and those of the children
-- (Boolean tests, lists over the native numbers, Go strings, results of fallible calls).
mod Tests
mod Lists
mod Text
mod Errors
mod TextLaws
pub use Tests.*
pub use Lists.*
unfoldable pub use Text.*
pub use Errors.*
pub use TextLaws.*
pub use Prim.Native.Nat.{ℕ, zero, suc, ◌+◌, ◌-◌, ◌*◌, ◌/◌, ◌%◌, ◌^◌, ◌≤◌, ◌<◌}
pub use mathlib.Core.Path.{◌≡◌, refl, sym, ap, ◌∙◌}
pub use mathlib.Core.Logic.{◌≢◌, ◌↔◌, ◌⊎◌, inl, inr}
pub use mathlib.Core.Bool.{Bool, true, false, not, ◌&&◌, ◌||◌}
pub use mathlib.Core.Option.{Option, none, some}
pub use mathlib.Core.List.{List, [], ◌∷◌, ◌++◌, map, append_assoc, append-nil}
pub use native.Mathlib.Omega.{arith}
