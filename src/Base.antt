-- ===== src/Base.antt =====
-- The names that the other modules share: the libraries', passed on, and those of the children
-- that hold tests on numbers, list helpers and ordered maps.
mod Tests
pub mod Bits
pub mod Ord
pub mod Assoc
pub mod Sort
pub mod BTreeMap
pub mod BTreeSet
pub mod HashMap
pub mod Result
pub mod Text
pub mod TextOrd
pub mod Digits
pub use Tests.*
pub use Prim.Native.Nat.{ℕ, zero, suc, ◌+◌, ◌-◌, ◌*◌, ◌/◌, ◌%◌, ◌^◌, ◌≤◌, ◌<◌, max, min}
pub use mathlib.Core.Path.{◌≡◌, refl, sym, ap, ◌∙◌}
pub use mathlib.Core.Logic.{◌≢◌, ◌↔◌, ◌⊎◌, inl, inr}
pub use mathlib.Core.Bool.{Bool, true, false, not, ◌&&◌, ◌||◌}
pub use mathlib.Core.Option.{Option, none, some}
pub use mathlib.Core.List.{List, [], ◌∷◌, ◌++◌, map}
pub use native.Mathlib.Omega.{arith}
