-- ===== src/Crc/Table.antt =====
-- The table against the division by the polynomial, bit by bit.
use agatha.Prelude.{
  ℕ, zero, suc, ◌-◌, ◌/◌, ◌%◌, ◌^◌, ◌<◌, ◌≡◌, refl, ap, ◌∙◌, sym, subst, Bool-cases, inl, inr, Bool,
  true, false, ◌&&◌, ◌==◌, ==_iff, if◌then◌else◌, arith, List, [], ◌∷◌, ◌++◌, All, ◌⊎◌, ◌*◌,
  bit_xor, bit_xor_half, bit_xor_odd, bit_xor_comm, bit_xor_assoc, zero-bit_xor, bit_xor-lt_256,
  bit_xor_parts,
}
use agatha.Crc.{lookup, crc_byte, crc_continue, crc_checksum}

-- One bit of the division by the reversed polynomial 0xEDB88320.
abbrev pub divide_bit : ℕ → ℕ
divide_bit r = if r % 2 == 1 then bit_xor 3988292384 (r / 2) else r / 2

abbrev pub divide_bits : ℕ → ℕ → ℕ
divide_bits zero r = r
divide_bits (suc n) r = divide_bits n (divide_bit r)

-- The rows of the table below `n` are right.
rows_right : ℕ → Bool
rows_right zero = true
rows_right (suc n) = (lookup n == divide_bits 8 n) && rows_right n

all_right : rows_right 256 ≡ true
unfolding rows_right
all_right = refl

apart : (i n : ℕ) → (i == n) ≡ false → i < suc n → i < n
apart i n e lt = ground arith

rows_right_below : (n i : ℕ) → rows_right n ≡ true → i < n → (lookup i == divide_bits 8 i) ≡ true
unfolding rows_right
rows_right_below zero i h lt = absurd (omega arith)
rows_right_below (suc n) i h lt = elim (Bool-cases (i == n)) [
  | inl e ↦
      subst (λ k. (lookup k == divide_bits 8 k) ≡ true) (sym ((==_iff i n).0 e)) (and_left _ _ h)
  | inr e ↦ rows_right_below n i (and_right _ _ h) (apart i n e lt)
]
  where
    and_left : (x y : Bool) → (x && y) ≡ true → x ≡ true
    and_left true y h = refl
    and_left false y h = h

    and_right : (x y : Bool) → (x && y) ≡ true → y ≡ true
    and_right true y h = h
    and_right false y h = cc

lookup-divide_bits : (i : ℕ) → i < 256 → lookup i ≡ divide_bits 8 i
lookup-divide_bits i h =
    (==_iff (lookup i) (divide_bits 8 i)).0 (rows_right_below 256 i all_right h)

-- The polynomial, as it is xored in.
abbrev poly : ℕ
poly = 3988292384

divide_bit_odd : (a : ℕ) → a % 2 ≡ 1 → divide_bit a ≡ bit_xor poly (a / 2)
divide_bit_odd a h = let e : (a % 2 == 1) ≡ true = ground arith in rw e refl

divide_bit_even : (a : ℕ) → a % 2 ≡ 0 → divide_bit a ≡ a / 2
divide_bit_even a h = let e : (a % 2 == 1) ≡ false = ground arith in rw e refl

parity : (a : ℕ) → (a % 2 ≡ 1) ⊎ (a % 2 ≡ 0)
parity a = elim (Bool-cases (a % 2 == 1)) [
  | inl e ↦ inl (ground arith)
  | inr e ↦ inr (ground arith)
]

bit_xor_swap : (a b c : ℕ) → bit_xor a (bit_xor b c) ≡ bit_xor b (bit_xor a c)
bit_xor_swap a b c =
    sym (bit_xor_assoc a b c) ∙ ap (λ x. bit_xor x c) (bit_xor_comm a b) ∙ bit_xor_assoc b a c

poly_twice : (x : ℕ) → bit_xor poly (bit_xor poly x) ≡ x
poly_twice x = sym (bit_xor_assoc poly poly x) ∙ zero-bit_xor x

-- The division is linear.
divide_bit-linear : (a b : ℕ) → divide_bit (bit_xor a b) ≡ bit_xor (divide_bit a) (divide_bit b)
divide_bit-linear a b =
    let x = a / 2 in
    let y = b / 2 in
    let odd = bit_xor_odd a b in
    elim (parity a) [
      | inl e ↦ elim (parity b) [
        | inl f ↦
            divide_bit_even (bit_xor a b) (omega (arith, odd))
            ∙ bit_xor_half a b
            ∙ sym (
                ap (λ z. bit_xor z (divide_bit b)) (divide_bit_odd a e)
                ∙ ap (λ z. bit_xor (bit_xor poly x) z) (divide_bit_odd b f)
                ∙ bit_xor_swap (bit_xor poly x) poly y
                ∙ ap (λ z. bit_xor poly z) (bit_xor_assoc poly x y)
                ∙ poly_twice (bit_xor x y))
        | inr f ↦
            divide_bit_odd (bit_xor a b) (omega (arith, odd))
            ∙ ap (λ z. bit_xor poly z) (bit_xor_half a b)
            ∙ sym (
                ap (λ z. bit_xor z (divide_bit b)) (divide_bit_odd a e)
                ∙ ap (λ z. bit_xor (bit_xor poly x) z) (divide_bit_even b f)
                ∙ bit_xor_assoc poly x y)
      ]
      | inr e ↦ elim (parity b) [
        | inl f ↦
            divide_bit_odd (bit_xor a b) (omega (arith, odd))
            ∙ ap (λ z. bit_xor poly z) (bit_xor_half a b)
            ∙ sym (
                ap (λ z. bit_xor z (divide_bit b)) (divide_bit_even a e)
                ∙ ap (λ z. bit_xor x z) (divide_bit_odd b f)
                ∙ bit_xor_swap x poly y)
        | inr f ↦
            divide_bit_even (bit_xor a b) (omega (arith, odd))
            ∙ bit_xor_half a b
            ∙ sym (
                ap (λ z. bit_xor z (divide_bit b)) (divide_bit_even a e)
                ∙ ap (λ z. bit_xor x z) (divide_bit_even b f))
      ]
    ]

divide_bits-linear :
    (n a b : ℕ) → divide_bits n (bit_xor a b) ≡ bit_xor (divide_bits n a) (divide_bits n b)
divide_bits-linear zero a b = refl
divide_bits-linear (suc n) a b =
    ap (divide_bits n) (divide_bit-linear a b) ∙ divide_bits-linear n (divide_bit a) (divide_bit b)

-- Eight zero bits are divided away.
divide_bits-high : (h : ℕ) → divide_bits 8 (h * 256) ≡ h
divide_bits-high h =
    step 7 (h * 256) (h * 128) (omega arith) (omega arith)
    ∙ step 6 (h * 128) (h * 64) (omega arith) (omega arith)
    ∙ step 5 (h * 64) (h * 32) (omega arith) (omega arith)
    ∙ step 4 (h * 32) (h * 16) (omega arith) (omega arith)
    ∙ step 3 (h * 16) (h * 8) (omega arith) (omega arith)
    ∙ step 2 (h * 8) (h * 4) (omega arith) (omega arith)
    ∙ step 1 (h * 4) (h * 2) (omega arith) (omega arith)
    ∙ step 0 (h * 2) h (omega arith) (omega arith)
  where
    step : (n a b : ℕ) → a % 2 ≡ 0 → a / 2 ≡ b → divide_bits (suc n) a ≡ divide_bits n b
    step n a b e f = ap (divide_bits n) (divide_bit_even a e ∙ f)

-- A byte of the checksum by the table is eight steps of the division.
crc_byte-divide_bits : (b crc : ℕ) → b < 256 → crc_byte b crc ≡ divide_bits 8 (bit_xor crc b)
unfolding crc_byte
crc_byte-divide_bits b crc h =
    let low = bit_xor (crc % 256) b in
    let low_lt : low < 256 = bit_xor-lt_256 (crc % 256) b (omega arith) h in
    let whole : bit_xor (crc / 256 * 256) low ≡ bit_xor crc b =
      sym (bit_xor_assoc (crc / 256 * 256) (crc % 256) b)
      ∙ ap (λ x. bit_xor x b) (bit_xor_parts (crc / 256) (crc % 256) (omega arith) ∙ omega arith) in
    ap (λ x. bit_xor x (crc / 256)) (lookup-divide_bits low low_lt)
    ∙ bit_xor_comm (divide_bits 8 low) (crc / 256)
    ∙ sym (
        ap (divide_bits 8) (sym whole)
        ∙ divide_bits-linear 8 (crc / 256 * 256) low
        ∙ ap (λ x. bit_xor x (divide_bits 8 low)) (divide_bits-high (crc / 256)))

-- The checksum without a table: each byte is xored in and divided bit by bit.
abbrev pub bitwise : List ℕ → ℕ → ℕ
bitwise [] crc = crc
bitwise (b ∷ p) crc = bitwise p (divide_bits 8 (bit_xor crc b))

crc_continue-bitwise :
    (p : List ℕ) (crc : ℕ) → All (λ b. b < 256) p → crc_continue p crc ≡ bitwise p crc
unfolding crc_continue
crc_continue-bitwise [] crc h = refl
crc_continue-bitwise (b ∷ p) crc h =
    ap (crc_continue p) (crc_byte-divide_bits b crc h.0)
    ∙ crc_continue-bitwise p (divide_bits 8 (bit_xor crc b)) h.1

-- On bytes, the checksum by the table is the one of the bitwise division by 0xEDB88320, from all ones
-- and with all bits turned at the end.
pub crc_checksum-bitwise :
    (p : List ℕ)
    → All (λ b. b < 256) p
    → crc_checksum p ≡ bit_xor (bitwise p (2 ^ 32 - 1)) (2 ^ 32 - 1)
unfolding crc_checksum
crc_checksum-bitwise p h = ap (λ x. bit_xor x (2 ^ 32 - 1)) (crc_continue-bitwise p (2 ^ 32 - 1) h)

-- A text in two parts has the checksum state of the second part continued from the first.
pub crc_continue-append :
    (p q : List ℕ) (crc : ℕ) → crc_continue (p ++ q) crc ≡ crc_continue q (crc_continue p crc)
unfolding crc_continue
crc_continue-append [] q crc = refl
crc_continue-append (b ∷ p) q crc = crc_continue-append p q (crc_byte b crc)
