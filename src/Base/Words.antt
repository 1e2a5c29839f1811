-- ===== src/Base/Words.antt =====
-- The binary digits of a word one by one, and what `&`, `|`, `~` and a single set bit are to them.
use Prim.Native.Nat.{
  ℕ, zero, suc, ◌+◌, ◌-◌, ◌*◌, ◌/◌, ◌%◌, ◌^◌, ◌≤◌, ◌<◌, min, max, bit_and, bit_or, digits,
  bit_and-bitwise, bit_or-bitwise,
}
use native.Mathlib.Nat.{two-pow-succ}
use mathlib.Core.Path.{◌≡◌, refl, ◌∙◌, sym}
use mathlib.Core.Bool.{Bool, true, false, not, ◌&&◌, ◌||◌}
use native.Mathlib.Omega.{arith}
use native.Mathlib.Decide.{ℕ_discrete}
use mathlib.Core.Bool.{false≢true}
use mathlib.Core.Logic.{inl, inr}
use xdma_fpga.Base.Bools.{◌==◌, has, Bool-cases}

-- The k-th digit, from the lowest.
unfoldable pub bit : ℕ → ℕ → Bool
bit zero x = x % 2 == 1
bit (suc k) x = bit k (x / 2)

-- `~x` of a `u32`.
abbrev pub not32 : ℕ → ℕ
not32 x = 2 ^ 32 - 1 - x

pub bit-zero : (k : ℕ) → bit k 0 ≡ false
unfolding bit
bit-zero zero = refl
bit-zero (suc k) = bit-zero k

-- An operation on digits, where one of its numbers has digits left as long as there is fuel.
module _ (z : ℕ → ℕ) (f : ℕ → ℕ → ℕ) (g : Bool → Bool → Bool)
    (end : (k b : ℕ) → bit k (z b) ≡ g false (bit k b))
    (digit : (x y : ℕ) → x < 2 → y < 2 → (f x y < 2) × ((f x y == 1) ≡ g (x == 1) (y == 1))) where
  bit-digits : (k n a b : ℕ) → a ≤ n → bit k (digits z f n a b) ≡ g (bit k a) (bit k b)
  unfolding bit
  bit-digits k zero zero b h = rw (bit-zero k) (end k b)
  bit-digits k zero (suc a) b h = absurd (omega arith)
  bit-digits k (suc n) zero b h = rw (bit-zero k) (end k b)
  bit-digits zero (suc n) (suc a) b h =
      let (small, e) = digit (suc a % 2) (b % 2) (omega arith) (omega arith) in
      let low : (digits z f n (suc a / 2) (b / 2) * 2 + f (suc a % 2) (b % 2)) % 2
          ≡ f (suc a % 2) (b % 2) =
        omega arith in
      rw low e
  bit-digits (suc k) (suc n) (suc a) b h =
      let (small, e) = digit (suc a % 2) (b % 2) (omega arith) (omega arith) in
      let high : (digits z f n (suc a / 2) (b / 2) * 2 + f (suc a % 2) (b % 2)) / 2
          ≡ digits z f n (suc a / 2) (b / 2) =
        omega arith in
      rw high (bit-digits k n (suc a / 2) (b / 2) (omega arith))

min_digit : (x y : ℕ) → x < 2 → y < 2 → (min x y < 2) × ((min x y == 1) ≡ ((x == 1) && (y == 1)))
min_digit x y h k = (omega arith, ground arith)

max_digit : (x y : ℕ) → x < 2 → y < 2 → (max x y < 2) × ((max x y == 1) ≡ ((x == 1) || (y == 1)))
max_digit x y h k = (omega arith, ground arith)

pub bit-bit_and : (k x y : ℕ) → bit k (bit_and x y) ≡ (bit k x && bit k y)
bit-bit_and k x y =
    rw (bit_and-bitwise x y)
      (bit-digits (λ _. zero) min ◌&&◌ (λ k b. bit-zero k) min_digit k x x y (omega arith))

pub bit-bit_or : (k x y : ℕ) → bit k (bit_or x y) ≡ (bit k x || bit k y)
bit-bit_or k x y =
    rw (bit_or-bitwise x y)
      (bit-digits (λ b. b) max ◌||◌ (λ k b. refl) max_digit k x x y (omega arith))

-- A word with one bit set.
pub bit-pow : (k j : ℕ) → bit k (2 ^ j) ≡ (k == j)
unfolding bit
bit-pow zero zero = refl
bit-pow (suc k) zero = bit-zero k ∙ ground arith
bit-pow zero (suc j) =
    let e : 2 ^ suc j % 2 ≡ 0 = omega (arith, two-pow-succ j) in rw e (ground arith)
bit-pow (suc k) (suc j) =
    let e : 2 ^ suc j / 2 ≡ 2 ^ j = omega (arith, two-pow-succ j) in
    rw e (bit-pow k j ∙ ground arith)

bit-not : (k w x : ℕ) → k < w → x < 2 ^ w → bit k (2 ^ w - 1 - x) ≡ not (bit k x)
unfolding bit
bit-not k zero x h lt = absurd (omega arith)
bit-not zero (suc w) x h lt =
    let e : (2 ^ suc w - 1 - x) % 2 ≡ 1 - x % 2 = omega (arith, two-pow-succ w) in
    rw e (ground arith)
bit-not (suc k) (suc w) x h lt =
    let e : (2 ^ suc w - 1 - x) / 2 ≡ 2 ^ w - 1 - x / 2 = omega (arith, two-pow-succ w) in
    rw e (bit-not k w (x / 2) (omega arith) (omega (arith, two-pow-succ w)))

pub bit-not32 : (k x : ℕ) → k < 32 → x < 2 ^ 32 → bit k (not32 x) ≡ not (bit k x)
bit-not32 k x = bit-not k 32 x

-- A word with a bit set is not 0, and a word with none is.
pub bit-nonzero : (k x : ℕ) → bit k x ≡ true → (x == 0) ≡ false
bit-nonzero k zero h = absurd (false≢true (sym (bit-zero k) ∙ h))
bit-nonzero k (suc x) h = ground arith

zero_of_bits : (n x : ℕ) → x ≤ n → ((k : ℕ) → bit k x ≡ false) → x ≡ 0
unfolding bit
zero_of_bits n zero le h = refl
zero_of_bits zero (suc x) le h = absurd (omega arith)
zero_of_bits (suc n) (suc x) le h =
    let half : suc x / 2 ≡ 0 = zero_of_bits n (suc x / 2) (omega arith) (λ k. h (suc k)) in
    ground (arith, h 0)

one_digit : (k x j : ℕ) → (bit j x && (j == k)) ≡ ((j == k) && bit k x)
one_digit k x j = elim (ℕ_discrete j k) [
  | yes e ↦ rw e (ground arith)
  | no n ↦ let off : (j == k) ≡ false = ground arith in ground arith
]

digit_one : (k x j : ℕ) → ((j == k) && bit j x) ≡ ((j == k) && bit k x)
digit_one k x j = elim (ℕ_discrete j k) [
  | yes e ↦ rw e refl
  | no n ↦ let off : (j == k) ≡ false = ground arith in ground arith
]

module _ (k m x : ℕ) (only : (j : ℕ) → bit j m ≡ ((j == k) && bit k x)) where
  tests_bit : not (m == 0) ≡ bit k x
  tests_bit = elim (Bool-cases (bit k x)) [
    | inl set ↦
        let same : (k == k) ≡ true = ground arith in
        let n = bit-nonzero k m (only k ∙ rw (same, set) refl) in rw n (sym set)
    | inr unset ↦
        let none : m ≡ 0 = zero_of_bits m m (omega arith) (λ j. only j ∙ rw unset (ground arith)) in
        rw none (sym unset)
  ]

-- `x & (1 << k)` tests the k-th bit.
pub has-pow : (k x : ℕ) → has x (2 ^ k) ≡ bit k x
has-pow k x =
    tests_bit k (bit_and x (2 ^ k)) x
      λ j. bit-bit_and j x (2 ^ k) ∙ rw (bit-pow j k) (one_digit k x j)

pub pow-has : (k x : ℕ) → has (2 ^ k) x ≡ bit k x
pow-has k x =
    tests_bit k (bit_and (2 ^ k) x) x
      λ j. bit-bit_and j (2 ^ k) x ∙ rw (bit-pow j k) (digit_one k x j)
