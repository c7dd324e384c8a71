-- ===== src/Common.antt =====
-- Names shared by every module: the libraries' and those of the children, and the equality of keys.
mod Tests
mod Lists
mod Keys
pub mod Map
pub mod Set
pub mod Result
pub mod Find
pub mod Sort
pub mod Distinct
pub use Tests.*
pub use Lists.*
pub use Keys.*
unfoldable pub use Keys.{list_beq}
pub use Prim.Native.Nat.{ℕ, zero, suc, ◌+◌, ◌-◌, ◌*◌, ◌/◌, ◌%◌, ◌^◌, ◌≤◌, ◌<◌}
pub use Prim.Native.String.{String}
pub use mathlib.Core.Path.{◌≡◌, refl, sym, ap, ◌∙◌}
pub use mathlib.Core.Logic.{◌≢◌, ◌↔◌, ◌⊎◌, inl, inr}
pub use mathlib.Core.Bool.{Bool, true, false, not, ◌&&◌, ◌||◌}
pub use mathlib.Core.Option.{Option, none, some}
pub use mathlib.Core.List.{List, [], ◌∷◌, ◌++◌, map}
pub use native.Mathlib.Omega.{arith}
