-- ===== src/Prelude.antt =====
-- Shared vocabulary: the library names that the other modules use, Boolean tests and lists over
-- the native numbers, keyed maps, and the result of code that may abort the process.
mod Tests
mod Lists
mod Keys
mod Ints
pub mod Texts
pub mod Outcome
pub mod Assoc
pub mod Totals
pub mod Order
pub mod OrderedSet
pub use Tests.*
pub use Lists.*
pub use Keys.*
unfoldable pub use Ints.*
pub use Prim.Native.Nat.{ℕ, zero, suc, ◌+◌, ◌-◌, ◌*◌, ◌/◌, ◌%◌, ◌^◌, ◌≤◌, ◌<◌}
pub use mathlib.Core.Path.{◌≡◌, refl, sym, ap, subst, ◌∙◌}
pub use mathlib.Core.Logic.{◌≢◌, ◌↔◌, ◌⊎◌, inl, inr}
pub use mathlib.Core.Bool.{Bool, true, false, ◌&&◌, ◌||◌, not}
pub use mathlib.Core.Option.{Option, none, some}
pub use mathlib.Core.List.{List, [], ◌∷◌, ◌++◌, map, append-nil, append_assoc}
pub use native.Mathlib.Omega.{arith}
