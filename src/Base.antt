-- ===== src/Base.antt =====
-- The names that all modules of the development share: the libraries', passed on, Boolean tests,
-- lists with native indices, and the error numbers of the driver.
mod Bools
mod Lists
mod Bits
mod Words
pub use Bools.*
pub use Lists.*
pub use Bits.*
unfoldable pub use Words.*
pub use Prim.Native.Nat.{ℕ, zero, suc, ◌+◌, ◌-◌, ◌*◌, ◌/◌, ◌%◌, ◌^◌, ◌≤◌, ◌<◌, min, bit_and, bit_or}
pub use mathlib.Core.Path.{◌≡◌, refl, sym, ap, ◌∙◌, subst}
pub use mathlib.Core.Logic.{◌≢◌, ◌↔◌, ◌⊎◌, inl, inr}
pub use mathlib.Core.Bool.{Bool, true, false, ◌&&◌, ◌||◌, not}
pub use mathlib.Core.Option.{Option, none, some}
pub use mathlib.Core.List.{List, [], ◌∷◌, ◌++◌, map}
pub use native.Mathlib.Omega.{arith}

-- The `-E…` values that the modelled functions return; `eperm` is the plain -1.
pub data Errno : Type 0 where
  eperm eio enomem efault ebusy einval etimedout : Errno

-- An `int` that is 0 or a negated error number.
pub data Rv : Type 0 where
  ok : Rv
  err : Errno → Rv

-- `rv < 0`
abbrev pub is_err : Rv → Bool
is_err ok = false
is_err (err e) = true

-- `u32` (and, with the kernel's wrapping `int`, bit-pattern) sums and differences.
abbrev pub add32 : ℕ → ℕ → ℕ
add32 a b = (a + b) % 2 ^ 32

abbrev pub sub32 : ℕ → ℕ → ℕ
sub32 a b = (a + 2 ^ 32 - b % 2 ^ 32) % 2 ^ 32

-- `u64` sums.
abbrev pub add64 : ℕ → ℕ → ℕ
add64 a b = (a + b) % 2 ^ 64
