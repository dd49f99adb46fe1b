-- ===== src/Base.antt =====
-- What every module shares: names of the libraries, passed on, tests on numbers, lists with native
-- indices, blocks of bytes in a memory, and the laws of the bit operations.
mod Tests
mod Lists
mod Bytes
mod Words
pub mod Bits
pub mod Powers
pub use Tests.*
pub use Lists.*
pub use Bytes.*
pub use Words.*
unfoldable pub use Words.{of_be, of_le}
pub use Prim.Native.Nat.{
  ℕ, zero, suc, ◌+◌, ◌-◌, ◌*◌, ◌/◌, ◌%◌, ◌^◌, ◌≤◌, ◌<◌, min, bit_and, bit_or, bit_xor,
}
pub use mathlib.Core.Path.{◌≡◌, refl, sym, ap, ap₂, ◌∙◌, subst, fun_ext}
pub use mathlib.Core.Logic.{◌≢◌, ◌↔◌, ◌⊎◌, inl, inr}
pub use mathlib.Core.Bool.{Bool, true, false, ◌&&◌, ◌||◌, not}
pub use mathlib.Core.Option.{Option, none, some}
pub use mathlib.Core.List.{List, [], ◌∷◌, ◌++◌, map, append-nil, append_assoc}
pub use native.Mathlib.Omega.{arith}
