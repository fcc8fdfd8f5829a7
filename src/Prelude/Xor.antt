-- ===== src/Prelude/Xor.antt =====
-- Exclusive or on the binary digits of native numbers.
use Prim.Native.Nat.{
  ℕ, zero, suc, ◌+◌, ◌*◌, ◌/◌, ◌%◌, ◌≤◌, ◌<◌, bit_xor, digits, differ, bit_xor-bitwise,
}
use mathlib.Core.Path.{◌≡◌, refl, ap}
use native.Mathlib.Nat.{mul_left_comm}
use native.Mathlib.Omega.{arith}

-- The operation with its fuel.
abbrev xor_digits : ℕ → ℕ → ℕ → ℕ
xor_digits n a b = digits (λ b. b) differ n a b

differ_bits : (x y : ℕ) → x < 2 → y < 2 → differ x y ≡ (x + y) % 2
differ_bits zero y h k = omega arith
differ_bits (suc zero) zero h k = refl
differ_bits (suc zero) (suc zero) h k = refl
differ_bits (suc zero) (suc (suc y)) h k = absurd (omega arith)
differ_bits (suc (suc x)) y h k = absurd (omega arith)

xor_digits_fuel : (n m a b : ℕ) → a ≤ n → a ≤ m → xor_digits n a b ≡ xor_digits m a b
xor_digits_fuel zero zero a b p q = refl
xor_digits_fuel zero (suc m) zero b p q = refl
xor_digits_fuel zero (suc m) (suc a) b p q = absurd (omega arith)
xor_digits_fuel (suc n) zero zero b p q = refl
xor_digits_fuel (suc n) zero (suc a) b p q = absurd (omega arith)
xor_digits_fuel (suc n) (suc m) zero b p q = refl
xor_digits_fuel (suc n) (suc m) (suc a) b p q =
    omega (arith, xor_digits_fuel n m (suc a / 2) (b / 2) (omega arith) (omega arith))

pub zero-bit_xor : (b : ℕ) → bit_xor 0 b ≡ b
zero-bit_xor b = bit_xor-bitwise 0 b

-- The law for the lowest digit.
pub bit_xor_step : (a b : ℕ) → bit_xor a b ≡ bit_xor (a / 2) (b / 2) * 2 + (a % 2 + b % 2) % 2
bit_xor_step zero b = omega (arith, zero-bit_xor b, zero-bit_xor (b / 2))
bit_xor_step (suc a) b = omega (
  arith,
  bit_xor-bitwise (suc a) b,
  bit_xor-bitwise (suc a / 2) (b / 2),
  xor_digits_fuel a (suc a / 2) (suc a / 2) (b / 2) (omega arith) (omega arith),
  differ_bits (suc a % 2) (b % 2) (omega arith) (omega arith),
)

pub bit_xor_half : (a b : ℕ) → bit_xor a b / 2 ≡ bit_xor (a / 2) (b / 2)
bit_xor_half a b = omega (arith, bit_xor_step a b)

pub bit_xor_odd : (a b : ℕ) → bit_xor a b % 2 ≡ (a % 2 + b % 2) % 2
bit_xor_odd a b = omega (arith, bit_xor_step a b)

comm_fuel : (n a b : ℕ) → a ≤ n → b ≤ n → bit_xor a b ≡ bit_xor b a
comm_fuel zero zero zero p q = refl
comm_fuel zero (suc a) b p q = absurd (omega arith)
comm_fuel zero zero (suc b) p q = absurd (omega arith)
comm_fuel (suc n) a b p q = omega (
  arith,
  bit_xor_step a b,
  bit_xor_step b a,
  comm_fuel n (a / 2) (b / 2) (omega arith) (omega arith),
)

pub bit_xor_comm : (a b : ℕ) → bit_xor a b ≡ bit_xor b a
bit_xor_comm a b = comm_fuel (a + b) a b (omega arith) (omega arith)

assoc_fuel :
    (n a b c : ℕ) → a ≤ n → b ≤ n → c ≤ n → bit_xor (bit_xor a b) c ≡ bit_xor a (bit_xor b c)
assoc_fuel zero zero zero zero p q r = refl
assoc_fuel zero (suc a) b c p q r = absurd (omega arith)
assoc_fuel zero zero (suc b) c p q r = absurd (omega arith)
assoc_fuel zero zero zero (suc c) p q r = absurd (omega arith)
assoc_fuel (suc n) a b c p q r =
    let ih = assoc_fuel n (a / 2) (b / 2) (c / 2) (omega arith) (omega arith) (omega arith) in
    let left = ap (λ x. bit_xor x (c / 2)) (bit_xor_half a b) in
    let right = ap (λ x. bit_xor (a / 2) x) (bit_xor_half b c) in
    omega (
      arith,
      bit_xor_step (bit_xor a b) c,
      bit_xor_step a (bit_xor b c),
      bit_xor_odd a b,
      bit_xor_odd b c,
      ih,
      left,
      right,
    )

pub bit_xor_assoc : (a b c : ℕ) → bit_xor (bit_xor a b) c ≡ bit_xor a (bit_xor b c)
bit_xor_assoc a b c = assoc_fuel (a + b + c) a b c (omega arith) (omega arith) (omega arith)

-- Numbers of at most `n` digits, and their exclusive or.
abbrev doubled : ℕ → ℕ
doubled zero = 1
doubled (suc n) = 2 * doubled n

bit_xor-lt_doubled : (n a b : ℕ) → a < doubled n → b < doubled n → bit_xor a b < doubled n
bit_xor-lt_doubled zero zero zero p q = omega arith
bit_xor-lt_doubled zero (suc a) b p q = absurd (omega arith)
bit_xor-lt_doubled zero zero (suc b) p q = absurd (omega arith)
bit_xor-lt_doubled (suc n) a b p q =
    omega
      (arith, bit_xor_step a b, bit_xor-lt_doubled n (a / 2) (b / 2) (omega arith) (omega arith))

pub bit_xor-lt_256 : (a b : ℕ) → a < 256 → b < 256 → bit_xor a b < 256
bit_xor-lt_256 a b p q = bit_xor-lt_doubled 8 a b p q

-- The digits above the lowest eight, and those eight, make up a number.
parts_fuel : (n h l : ℕ) → l < doubled n → bit_xor (h * doubled n) l ≡ h * doubled n + l
parts_fuel zero h zero p = omega (arith, bit_xor_comm (h * 1) 0, zero-bit_xor (h * 1))
parts_fuel zero h (suc l) p = absurd (omega arith)
parts_fuel (suc n) h l p =
    let e : h * (2 * doubled n) ≡ 2 * (h * doubled n) = mul_left_comm h 2 (doubled n) in
    let ih = parts_fuel n h (l / 2) (omega arith) in
    let twice : 2 * (h * doubled n) / 2 ≡ h * doubled n = omega arith in
    let half : bit_xor (2 * (h * doubled n) / 2) (l / 2) ≡ bit_xor (h * doubled n) (l / 2) =
      ap (λ x. bit_xor x (l / 2)) twice in
    rw e (omega (arith, bit_xor_step (2 * (h * doubled n)) l, ih, half))

pub bit_xor_parts : (h l : ℕ) → l < 256 → bit_xor (h * 256) l ≡ h * 256 + l
bit_xor_parts h l p = parts_fuel 8 h l p
