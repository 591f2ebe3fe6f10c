-- ===== src/Base/Bits.antt =====
-- Masks of low bits and unions of disjoint bits as arithmetic.
-- The native operations mean a recursion on binary digits with fuel.
use Prim.Native.Nat.{
  ℕ, zero, suc, ◌+◌, ◌*◌, ◌/◌, ◌%◌, ◌^◌, ◌≤◌, ◌<◌, max, bit_and, bit_or, digits, bit_or-bitwise,
  bit_and-bitwise, min,
}
use mathlib.Core.Path.{◌≡◌, refl, ap}
use mathlib.Core.Bool.{Bool, true, ◌&&◌}
use native.Mathlib.Nat.{pow-suc}
use native.Mathlib.Omega.{arith}

-- Over a small range, check every value by evaluation.
unfoldable pub holds_below : ℕ → (ℕ → Bool) → Bool
holds_below zero test = true
holds_below (suc bound) test = holds_below bound test && test bound

pub holds_below_lem :
    (bound : ℕ) (test : ℕ → Bool) (y : ℕ)
    → holds_below bound test ≡ true
    → y < bound
    → test y ≡ true
unfolding holds_below
holds_below_lem zero test y checked small = absurd (omega arith)
holds_below_lem (suc bound) test y checked small = ground (arith, holds_below_lem bound test y)

-- The fuel of the digits does not matter, as long as it is enough.
module _ (last : ℕ → ℕ) (join : ℕ → ℕ → ℕ) where
  more_digits : (k n a b : ℕ) → a ≤ k → a ≤ n → digits last join k a b ≡ digits last join n a b
  more_digits zero zero a b p q = refl
  more_digits (suc k) zero zero b p q = refl
  more_digits (suc k) zero (suc a) b p q = absurd (omega arith)
  more_digits zero (suc n) zero b p q = refl
  more_digits zero (suc n) (suc a) b p q = absurd (omega arith)
  more_digits (suc k) (suc n) zero b p q = refl
  more_digits (suc k) (suc n) (suc a) b p q =
      let halved = more_digits k n (suc a / 2) (b / 2) (omega arith) (omega arith) in rw halved

zero-bit_or : (b : ℕ) → bit_or 0 b ≡ b
zero-bit_or b = bit_or-bitwise 0 b

-- One equation for the lowest digit.
bit_or_step : (a b : ℕ) → bit_or a b ≡ bit_or (a / 2) (b / 2) * 2 + max (a % 2) (b % 2)
bit_or_step zero b = omega (arith, zero-bit_or b, zero-bit_or (b / 2))
bit_or_step (suc a) b = omega (
  arith,
  bit_or-bitwise (suc a) b,
  bit_or-bitwise (suc a / 2) (b / 2),
  more_digits (λ y. y) max a (suc a / 2) (suc a / 2) (b / 2) (omega arith) (omega arith),
)

bit_or_zero_below : (n a : ℕ) → a ≤ n → bit_or a 0 ≡ a
bit_or_zero_below n zero h = refl
bit_or_zero_below zero (suc a) h = absurd (omega arith)
bit_or_zero_below (suc n) (suc a) h =
    omega (arith, bit_or_step (suc a) 0, bit_or_zero_below n (suc a / 2) (omega arith))

nothing_and : (y : ℕ) → bit_and 0 y ≡ 0
nothing_and y = bit_and-bitwise 0 y

bit_and_step : (x y : ℕ) → bit_and x y ≡ min (x % 2) (y % 2) + bit_and (x / 2) (y / 2) * 2
bit_and_step zero y = omega (arith, nothing_and (y / 2), nothing_and y)
bit_and_step (suc x) y = omega (
  arith,
  more_digits (λ d. 0) min x (suc x / 2) (suc x / 2) (y / 2) (omega arith) (omega arith),
  bit_and-bitwise (suc x / 2) (y / 2),
  bit_and-bitwise (suc x) y,
)

bit_and_zero_below : (n a : ℕ) → a ≤ n → bit_and a 0 ≡ 0
bit_and_zero_below n zero h = refl
bit_and_zero_below zero (suc a) h = absurd (omega arith)
bit_and_zero_below (suc n) (suc a) h =
    omega (arith, bit_and_step (suc a) 0, bit_and_zero_below n (suc a / 2) (omega arith))

-- The masks of one to seven ones, one digit at a time.
bit_and_low_one : (a : ℕ) → bit_and a 1 ≡ a % 2
bit_and_low_one a =
    omega (arith, bit_and_step a 1, bit_and_zero_below (a / 2) (a / 2) (omega arith))

bit_and_low_two : (a : ℕ) → bit_and a 3 ≡ a % 4
bit_and_low_two a = omega (arith, bit_and_step a 3, bit_and_low_one (a / 2))

bit_and_low_three : (a : ℕ) → bit_and a 7 ≡ a % 8
bit_and_low_three a = omega (arith, bit_and_step a 7, bit_and_low_two (a / 2))

bit_and_low_four : (a : ℕ) → bit_and a 15 ≡ a % 16
bit_and_low_four a = omega (arith, bit_and_step a 15, bit_and_low_three (a / 2))

bit_and_low_five : (a : ℕ) → bit_and a 31 ≡ a % 32
bit_and_low_five a = omega (arith, bit_and_step a 31, bit_and_low_four (a / 2))

bit_and_low_six : (a : ℕ) → bit_and a 63 ≡ a % 64
bit_and_low_six a = omega (arith, bit_and_step a 63, bit_and_low_five (a / 2))

pub bit_and_low_seven : (a : ℕ) → bit_and a 0x7f ≡ a % 128
bit_and_low_seven a = omega (arith, bit_and_step a 0x7f, bit_and_low_six (a / 2))

-- The masks of one bit, from the lowest to the eighth.
lowest_bit : (a : ℕ) → bit_and a 1 ≡ a / 1 % 2 * 1
lowest_bit a = omega (arith, bit_and_low_one a)

second_bit : (a : ℕ) → bit_and a 2 ≡ a / 2 % 2 * 2
second_bit a = omega (arith, bit_and_step a 2, lowest_bit (a / 2))

third_bit : (a : ℕ) → bit_and a 4 ≡ a / 4 % 2 * 4
third_bit a = omega (arith, bit_and_step a 4, second_bit (a / 2))

fourth_bit : (a : ℕ) → bit_and a 8 ≡ a / 8 % 2 * 8
fourth_bit a = omega (arith, bit_and_step a 8, third_bit (a / 2))

fifth_bit : (a : ℕ) → bit_and a 16 ≡ a / 16 % 2 * 16
fifth_bit a = omega (arith, bit_and_step a 16, fourth_bit (a / 2))

sixth_bit : (a : ℕ) → bit_and a 32 ≡ a / 32 % 2 * 32
sixth_bit a = omega (arith, bit_and_step a 32, fifth_bit (a / 2))

seventh_bit : (a : ℕ) → bit_and a 64 ≡ a / 64 % 2 * 64
seventh_bit a = omega (arith, bit_and_step a 64, sixth_bit (a / 2))

eighth_bit : (a : ℕ) → bit_and a 128 ≡ a / 128 % 2 * 128
eighth_bit a = omega (arith, bit_and_step a 128, seventh_bit (a / 2))

pub top_bit : (x : ℕ) → x < 256 → bit_and x 0x80 ≡ x / 128 * 128
top_bit x h = omega (arith, eighth_bit x)

mul_two_pow : (q k : ℕ) → q * 2 ^ suc k ≡ 2 * (q * 2 ^ k)
mul_two_pow q k = omega (arith, ap (λ (t : ℕ). q * t) (pow-suc 2 k))

-- `low | (high << k)` is a sum where `low` fits `k` bits.
pub bit_or_disjoint :
    (k low high : ℕ) → low < 2 ^ k → bit_or low (high * 2 ^ k) ≡ low + high * 2 ^ k
bit_or_disjoint zero zero high h = omega (arith, zero-bit_or (high * 2 ^ 0))
bit_or_disjoint zero (suc low) high h = absurd (omega arith)
bit_or_disjoint (suc k) low high h = ground (
  arith,
  bit_or_step low (high * 2 ^ suc k),
  mul_two_pow high k,
  pow-suc 2 k,
  bit_or_disjoint k (low / 2) high (omega arith),
)

pub set_top_bit : (x : ℕ) → x < 128 → bit_or x 0x80 ≡ x + 128
set_top_bit x h = bit_or_disjoint 7 x 1 h
