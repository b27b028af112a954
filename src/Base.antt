-- ===== src/Base.antt =====
-- The names that the other modules share: the library's, passed on, and those of the children
-- below: Boolean tests, lists, the functions of Go's `strings` package on byte strings, maps, numbers
-- and paths.
mod Tests
mod Lists
mod Text
mod Strings
mod Trim
mod Sort
mod Split
mod Maps
mod Numbers
mod Paths
mod Cleaned
pub use Tests.*
pub use Lists.*
unfoldable pub use Text.*
unfoldable pub use Strings.*
pub use Split.*
pub use Trim.*
unfoldable pub use Sort.*
unfoldable pub use Maps.*
unfoldable pub use Numbers.*
unfoldable pub use Paths.*
pub use Cleaned.*
pub use Prim.Native.Nat.{ℕ, zero, suc, ◌+◌, ◌-◌, ◌*◌, ◌/◌, ◌%◌, ◌^◌, ◌≤◌, ◌<◌}
pub use mathlib.Core.Path.{◌≡◌, refl, sym, ap, ◌∙◌, subst}
pub use mathlib.Core.Logic.{◌≢◌, ◌↔◌, ◌⊎◌, inl, inr}
pub use mathlib.Core.Bool.{Bool, true, false, ◌&&◌, ◌||◌, not}
pub use mathlib.Core.Option.{Option, none, some}
pub use mathlib.Core.List.{List, [], ◌∷◌, ◌++◌, map, append-nil, append_assoc, reverse}
pub use native.Mathlib.Omega.{arith}
