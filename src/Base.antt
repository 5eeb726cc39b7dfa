-- ===== src/Base.antt =====
-- The names that every module shares: the libraries', passed on, and those of the children.
mod Tests
mod Words
mod Lists
mod Memory
mod Bits
mod Tables
mod Int
mod Results
pub use Tests.*
pub use Int.*
pub use Results.*
pub use Words.*
pub use Lists.*
unfoldable pub use Memory.{update}
pub use Memory.{update_lem}
unfoldable pub use Bits.{test_bit}
pub use Bits.*
unfoldable pub use Tables.{all_below}
pub use Tables.{all_below_sound}
pub use Prim.Native.Nat.{
  ℕ, zero, suc, ◌+◌, ◌-◌, ◌*◌, ◌/◌, ◌%◌, ◌^◌, ◌≤◌, ◌<◌, min, max, bit_and, bit_or,
}
pub use mathlib.Core.Path.{◌≡◌, refl, sym, ap, ◌∙◌}
pub use mathlib.Core.Logic.{◌≢◌, ◌↔◌, ◌⊎◌, inl, inr}
pub use mathlib.Core.Bool.{Bool, true, false, not, ◌&&◌, ◌||◌}
pub use mathlib.Core.Option.{Option, none, some}
pub use mathlib.Core.List.{List, [], ◌∷◌, ◌++◌, map}
pub use native.Mathlib.Omega.{arith}
