-- ===== src/Base/Bits.antt =====
-- A law of `bit_and` at variables.
use Prim.Native.Nat.{ℕ, zero, suc, ◌/◌, ◌≤◌, min, bit_and, digits, bit_and-bitwise}
use native.Mathlib.Omega.{arith}

-- The digits of a masked word are at most those of the word, as many as there is fuel for.
masked_le : (fuel word mask : ℕ) → digits (λ _. zero) min fuel word mask ≤ word
masked_le (suc fuel) (suc word) mask = omega (arith, masked_le fuel (suc word / 2) (mask / 2))
masked_le (suc fuel) zero mask = omega arith
masked_le zero word mask = omega arith

-- Masking does not make a number larger.
pub bit_and-le : (word mask : ℕ) → bit_and word mask ≤ word
bit_and-le word mask = omega (arith, masked_le word word mask, bit_and-bitwise word mask)
