-- ===== src/Base.antt =====
-- Names that every module shares: the library's, passed on, and those of the children (tests on
-- numbers, machine words, lists with native indices, slot arrays and the outcome of a call).
mod Tests
mod Words
mod Lists
mod Arrays
mod Outcomes
pub use Tests.*
pub use Words.*
pub use Lists.*
pub use Arrays.*
pub use Outcomes.*
pub use Prim.Native.Nat.{ℕ, zero, suc, ◌+◌, ◌-◌, ◌*◌, ◌/◌, ◌%◌, ◌^◌, ◌≤◌, ◌<◌}
pub use mathlib.Core.Path.{◌≡◌, refl, sym, ap, ◌∙◌}
pub use mathlib.Core.Logic.{◌≢◌, ◌↔◌, ◌⊎◌, inl, inr}
pub use mathlib.Core.Bool.{Bool, true, false, ◌&&◌, ◌||◌, not}
pub use mathlib.Core.Option.{Option, none, some}
pub use mathlib.Core.List.{List, [], ◌∷◌, ◌++◌, map}
pub use native.Mathlib.Omega.{arith}
