-- ===== src/Prelude/Or.antt =====
-- Inclusive or of a number with zeroes below and a number that fits there.
use Prim.Native.Nat.{
  ℕ, zero, suc, ◌+◌, ◌*◌, ◌/◌, ◌%◌, ◌≤◌, ◌<◌, max, bit_or, digits, bit_or-bitwise,
}
use mathlib.Core.Path.{◌≡◌, refl, ap}
use native.Mathlib.Nat.{mul_left_comm}
use native.Mathlib.Omega.{arith}

-- The operation with its fuel.
abbrev or_digits : ℕ → ℕ → ℕ → ℕ
or_digits n a b = digits (λ b. b) max n a b

or_digits_fuel : (n m a b : ℕ) → a ≤ n → a ≤ m → or_digits n a b ≡ or_digits m a b
or_digits_fuel zero zero a b p q = refl
or_digits_fuel zero (suc m) zero b p q = refl
or_digits_fuel zero (suc m) (suc a) b p q = absurd (omega arith)
or_digits_fuel (suc n) zero zero b p q = refl
or_digits_fuel (suc n) zero (suc a) b p q = absurd (omega arith)
or_digits_fuel (suc n) (suc m) zero b p q = refl
or_digits_fuel (suc n) (suc m) (suc a) b p q =
    omega (arith, or_digits_fuel n m (suc a / 2) (b / 2) (omega arith) (omega arith))

zero-bit_or : (b : ℕ) → bit_or 0 b ≡ b
zero-bit_or b = bit_or-bitwise 0 b

bit_or_step : (a b : ℕ) → bit_or a b ≡ bit_or (a / 2) (b / 2) * 2 + max (a % 2) (b % 2)
bit_or_step zero b = omega (arith, zero-bit_or b, zero-bit_or (b / 2))
bit_or_step (suc a) b = omega (
  arith,
  bit_or-bitwise (suc a) b,
  bit_or-bitwise (suc a / 2) (b / 2),
  or_digits_fuel a (suc a / 2) (suc a / 2) (b / 2) (omega arith) (omega arith),
)

abbrev doubled : ℕ → ℕ
doubled zero = 1
doubled (suc n) = 2 * doubled n

right_zero : (n a : ℕ) → a ≤ n → bit_or a 0 ≡ a
right_zero n zero p = zero-bit_or 0
right_zero zero (suc a) p = absurd (omega arith)
right_zero (suc n) (suc a) p =
    omega (arith, bit_or_step (suc a) 0, right_zero n (suc a / 2) (omega arith))

parts_fuel : (n h l : ℕ) → l < doubled n → bit_or (h * doubled n) l ≡ h * doubled n + l
parts_fuel zero h zero p = omega (arith, right_zero (h * 1) (h * 1) (omega arith))
parts_fuel zero h (suc l) p = absurd (omega arith)
parts_fuel (suc n) h l p =
    let e : h * (2 * doubled n) ≡ 2 * (h * doubled n) = mul_left_comm h 2 (doubled n) in
    let ih = parts_fuel n h (l / 2) (omega arith) in
    let twice : 2 * (h * doubled n) / 2 ≡ h * doubled n = omega arith in
    let half : bit_or (2 * (h * doubled n) / 2) (l / 2) ≡ bit_or (h * doubled n) (l / 2) =
      ap (λ x. bit_or x (l / 2)) twice in
    rw e (omega (arith, bit_or_step (2 * (h * doubled n)) l, ih, half))

-- The nine lowest digits.
pub bit_or_512 : (h l : ℕ) → l < 512 → bit_or (h * 512) l ≡ h * 512 + l
bit_or_512 h l p = parts_fuel 9 h l p
