-- ===== src/Base.antt =====
-- The names that every module shares: the libraries', passed on, and those of the children.
mod Tests
mod Lists
mod Monad
mod Text
mod Clock
mod Dicts
mod Powers
mod Order
mod Sort
mod Keyed
pub mod Fallible
unfoldable pub use Tests.*
unfoldable pub use Lists.*
unfoldable pub use Monad.*
unfoldable pub use Text.*
unfoldable pub use Clock.*
unfoldable pub use Dicts.*
pub use Powers.*
unfoldable pub use Order.*
unfoldable pub use Sort.*
unfoldable pub use Keyed.*
pub use Prim.Native.Nat.{ℕ, zero, suc, ◌+◌, ◌-◌, ◌*◌, ◌/◌, ◌%◌, ◌^◌, ◌≤◌, ◌<◌, min, max}
pub use Prim.Native.String.{String}
pub use mathlib.Core.Path.{◌≡◌, refl, sym, ap, subst, ◌∙◌}
pub use mathlib.Core.Logic.{◌≢◌, ◌↔◌, ◌⊎◌, inl, inr}
pub use mathlib.Core.Bool.{Bool, true, false, not, ◌&&◌, ◌||◌}
pub use mathlib.Core.Option.{Option, none, some}
pub use mathlib.Core.List.{List, [], ◌∷◌, ◌++◌, map}
pub use native.Mathlib.Omega.{arith}
pub use text.Mathlib.TextEquality.{eq_iff}
