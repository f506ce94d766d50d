-- ===== src/Prelude.antt =====
-- The names that every other module uses: those of the libraries, passed on, and those of the
-- children (Boolean tests, lists over the native numbers, bits of a byte, runs that can abort).
mod Tests
mod Lists
mod Abort
mod Words
mod Int
mod Search
pub mod Bytes
pub mod Ranges
pub use Tests.*
pub use Lists.*
pub use Abort.*
pub use Words.*
pub use Int.*
pub use Search.*
pub use Prim.Native.Nat.{ℕ, zero, suc, ◌+◌, ◌-◌, ◌*◌, ◌/◌, ◌%◌, ◌^◌, ◌≤◌, ◌<◌}
pub use Prim.Native.Nat.{bit_and, bit_or}
pub use mathlib.Core.Path.{◌≡◌, refl, sym, ap, ◌∙◌, subst}
pub use mathlib.Core.Logic.{◌≢◌, ◌↔◌, ◌⊎◌, inl, inr}
pub use mathlib.Core.Bool.{Bool, true, false, not, ◌&&◌, ◌||◌}
pub use mathlib.Core.Option.{Option, none, some}
pub use mathlib.Core.List.{List, [], ◌∷◌, ◌++◌, map}
pub use native.Mathlib.Omega.{arith}
