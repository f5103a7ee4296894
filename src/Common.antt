-- ===== src/Common.antt =====
-- The names that every module shares: the libraries' names passed on, tests on numbers, lists
-- measured by native numbers, the outcome of a C function, and facts about `|`.
mod Tests
mod Lists
pub mod Bits
pub mod Outcome
pub mod Text
pub mod Decimal
pub mod Sorting
pub mod Distinct
pub use Tests.*
unfoldable pub use Tests.{passes_from}
pub use Lists.*
pub use Prim.Native.Nat.{ℕ, zero, suc, ◌+◌, ◌-◌, ◌*◌, ◌/◌, ◌%◌, ◌^◌, ◌≤◌, ◌<◌, min}
pub use mathlib.Core.Path.{◌≡◌, refl, sym, ap, ◌∙◌, subst}
pub use mathlib.Core.Logic.{◌≢◌, ◌↔◌, ◌⊎◌, inl, inr}
pub use mathlib.Core.Bool.{Bool, true, false, not, ◌&&◌, ◌||◌}
pub use mathlib.Core.Option.{Option, none, some}
pub use mathlib.Core.List.{List, [], ◌∷◌, ◌++◌, map, append-nil, append_assoc}
pub use native.Mathlib.Omega.{arith}
