-- ===== src/Base.antt =====
-- The names that the other modules share: the libraries', passed on, and those of the children.
-- Tests: Boolean tests on numbers. Lists: lists measured by native numbers. Ids: lists of indices
-- without repetition. Words: 64-bit sums and page rounding. Int: signed arguments.
-- Indices: what lists of signed indices name. Sort: the sorted list.
mod Tests
mod Lists
mod Ids
mod Words
mod Int
mod Indices
mod Sort
pub use Tests.*
pub use Lists.*
pub use Ids.*
unfoldable pub use Words.*
pub use Int.*
pub use Indices.*
unfoldable pub use Sort.*
pub use Prim.Native.Nat.{ℕ, zero, suc, ◌+◌, ◌-◌, ◌*◌, ◌/◌, ◌%◌, ◌^◌, ◌≤◌, ◌<◌, min, max}
pub use mathlib.Core.Path.{◌≡◌, refl, sym, ap, ◌∙◌}
pub use mathlib.Core.Logic.{◌≢◌, ◌↔◌, ◌⊎◌, inl, inr}
pub use mathlib.Core.Bool.{Bool, true, false, not, ◌&&◌, ◌||◌}
pub use mathlib.Core.Option.{Option, none, some}
pub use mathlib.Core.List.{List, [], ◌∷◌, ◌++◌, map}
pub use native.Mathlib.Omega.{arith}
