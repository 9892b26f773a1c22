-- ===== src/Common.antt =====
-- The names that every module shares: those of the libraries, passed on, and those of the children
-- below: Boolean tests and equality, lists, machine words, text, and maps.
pub mod Test
pub mod Lists
pub mod Word
pub mod Text
pub mod Map
pub mod Sum
pub mod Least
pub mod Int
pub use Test.*
pub use Lists.*
unfoldable pub use Sum.*
unfoldable pub use Least.{min_by_key}
pub use Least.{min_by_key_lem}
pub use Word.*
pub use Prim.Native.Nat.{ℕ, zero, suc, ◌+◌, ◌-◌, ◌*◌, ◌/◌, ◌%◌, ◌^◌, ◌≤◌, ◌<◌, min, max}
pub use Prim.Native.String.{String}
pub use mathlib.Core.Path.{◌≡◌, refl, sym, ap, subst, ◌∙◌}
pub use mathlib.Core.Logic.{◌≢◌, ◌↔◌, ◌⊎◌, inl, inr}
pub use mathlib.Core.Bool.{Bool, true, false, not, ◌&&◌, ◌||◌}
pub use mathlib.Core.Option.{Option, none, some}
pub use mathlib.Core.List.{List, [], ◌∷◌, ◌++◌, map}
pub use native.Mathlib.Omega.{arith}
