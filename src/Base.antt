-- ===== src/Base.antt =====
-- The names that the other modules share: those of the libraries, passed on, Boolean tests, lists
-- of addresses, signed integers, and the outcome of a piece of C code.
mod Tests
mod Lists
mod Removal
mod Execution
pub mod Int
pub use Tests.*
pub use Lists.*
pub use Removal.*
pub use Execution.*
pub use Prim.Native.Nat.{ℕ, zero, suc, ◌+◌, ◌-◌, ◌*◌, ◌/◌, ◌%◌, ◌^◌, ◌≤◌, ◌<◌}
pub use mathlib.Core.Path.{◌≡◌, refl, sym, ap, ◌∙◌}
pub use mathlib.Core.Logic.{◌≢◌, ◌↔◌, ◌⊎◌, inl, inr}
pub use mathlib.Core.Bool.{Bool, true, false, ◌&&◌, ◌||◌, not}
pub use mathlib.Core.Option.{Option, none, some}
pub use mathlib.Core.List.{List, [], ◌∷◌, ◌++◌, map, append-nil, append_assoc}
pub use native.Mathlib.Omega.{arith}
