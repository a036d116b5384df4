-- ===== src/Prelude.antt =====
-- The names that every module shares: the libraries', passed on, and those of the children
-- (Boolean tests, lists over the native numbers, C++ integers, association lists and sets).
mod Tests
mod Lists
mod Sets
pub mod Counting
pub mod Int
pub mod Assoc
pub use Tests.*
pub use Lists.*
pub use Sets.*
unfoldable pub use Sets.{has, insert, erase}
pub use Prim.Native.Nat.{ℕ, zero, suc, ◌+◌, ◌-◌, ◌*◌, ◌/◌, ◌%◌, ◌^◌, ◌≤◌, ◌<◌}
pub use mathlib.Core.Path.{◌≡◌, refl, sym, ap, subst, ◌∙◌, fun_ext}
pub use mathlib.Core.Logic.{◌≢◌, ◌↔◌, ◌⊎◌, inl, inr}
pub use mathlib.Core.Bool.{Bool, true, false, not, ◌&&◌, ◌||◌}
pub use mathlib.Core.Option.{Option, none, some}
pub use mathlib.Core.List.{List, [], ◌∷◌, ◌++◌, map, reverse}
pub use native.Mathlib.Omega.{arith}
