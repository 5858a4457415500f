-- ===== src/Base.antt =====
-- The names that the other modules share: the libraries', passed on, and those of the children.
pub mod Tests
pub mod Iter
pub mod Lists
pub mod Order
pub mod Sets
pub mod Maps
pub mod Results
pub mod Words
unfoldable pub use Tests.*
unfoldable pub use Lists.*
unfoldable pub use Order.*
unfoldable pub use Words.*
pub use Prim.Native.Nat.{
  ℕ, zero, suc, ◌+◌, ◌-◌, ◌*◌, ◌/◌, ◌%◌, ◌^◌, ◌≤◌, ◌<◌, compare, Ordering, min, max,
}
pub use mathlib.Core.Path.{◌≡◌, refl, sym, ap, subst, ◌∙◌}
pub use mathlib.Core.Logic.{◌≢◌, ◌↔◌, ◌⊎◌, inl, inr}
pub use mathlib.Core.Bool.{Bool, true, false, not, ◌&&◌, ◌||◌}
pub use mathlib.Core.Option.{Option, none, some}
pub use mathlib.Core.List.{List, [], ◌∷◌, ◌++◌, map}
pub use native.Mathlib.Omega.{arith}
