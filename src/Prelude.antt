-- ===== src/Prelude.antt =====
-- The names that the other modules share: the libraries', passed on, the tests and list operations
-- over the native numbers, and the machine words of the kernel's C.
mod Tests
mod Lists
pub mod Memory
pub mod Bits
pub mod Words
pub use Tests.*
pub use Lists.*
pub use Prim.Native.Nat.{ℕ, zero, suc, ◌+◌, ◌-◌, ◌*◌, ◌/◌, ◌%◌, ◌^◌, ◌≤◌, ◌<◌, min}
pub use mathlib.Core.Path.{◌≡◌, refl, sym, ap, ◌∙◌}
pub use mathlib.Core.Logic.{◌≢◌, ◌↔◌, ◌⊎◌, inl, inr}
pub use mathlib.Core.Bool.{Bool, true, false, not, ◌&&◌, ◌||◌}
pub use mathlib.Core.Option.{Option, none, some}
pub use mathlib.Core.List.{List, [], ◌∷◌, ◌++◌, map}
pub use native.Mathlib.Omega.{arith}

-- The number of values of a uint32_t, a size_t or a pointer of the 32-bit kernel.
abbrev pub u32_mod : ℕ
u32_mod = 2 ^ 32

abbrev pub IsByte : ℕ → Type 0
IsByte b = b < 256
