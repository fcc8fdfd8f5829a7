-- ===== src/Text/Numbers.antt =====
-- `strtol` reads what `printint` writes.
use agatha.Prelude.{
  ℕ, zero, suc, ◌+◌, ◌-◌, ◌*◌, ◌/◌, ◌%◌, ◌^◌, ◌<◌, ◌≤◌, ◌≡◌, ◌≢◌, refl, ap, ◌∙◌, true, false, ◌||◌,
  ◌==◌, arith, Bool-cases, inl, inr, List, [], ◌∷◌, ◌++◌, length, length-append, take, All,
  All-append,
}
use agatha.Text.{isspace, digit, digits, printint, skip_space, number, strtol}

abbrev IsDigit : ℕ → Type 0
IsDigit c = (47 < c) × (c < 58)

digit-IsDigit : (i : ℕ) → IsDigit (digit (i % 10))
digit-IsDigit i = (ground arith, ground arith)

digits-IsDigit : (room i : ℕ) → All IsDigit (digits room 10 i)
unfolding digits
digits-IsDigit zero i = tt
digits-IsDigit (suc room) i = elim (Bool-cases (i / 10 == 0)) [
  | inl e ↦ rw e (digit-IsDigit i, tt)
  | inr e ↦ rw e (
      All-append IsDigit (digits room 10 (i / 10)) (digit (i % 10) ∷ [])
        (digits-IsDigit room (i / 10)) (digit-IsDigit i, tt))
]

stops : (c : ℕ) → IsDigit c → (c == 0 || isspace c) ≡ false
stops c k = ground (arith, k.0, k.1)

number-append :
    (n : ℕ) (s : List ℕ) (c : ℕ)
    → All IsDigit s
    → IsDigit c
    → number 10 n (s ++ (c ∷ [])) ≡ (number 10 n s * 10 + c + (2 ^ 32 - 48)) % 2 ^ 32
unfolding number
number-append n [] c h k = rw (stops c k) refl
number-append n (d ∷ s) c h k =
    rw (stops d h.0) (number-append ((n * 10 + d + (2 ^ 32 - 48)) % 2 ^ 32) s c h.1 k)

-- The numbers with at most so many digits.
bound : ℕ → ℕ
bound zero = 1
bound (suc room) = 10 * bound room

digit_value : (i : ℕ) → digit (i % 10) ≡ 48 + i % 10
digit_value i = ground arith

small : (i : ℕ) → (i / 10 == 0) ≡ true → i < 10
small i e = ground arith

single : (i : ℕ) → i < 10 → (0 * 10 + (48 + i % 10) + (2 ^ 32 - 48)) % 2 ^ 32 ≡ i
single i h = omega arith

number-nil : (n : ℕ) → number 10 n [] ≡ n
unfolding number
number-nil n = refl

snoc-ne : (s : List ℕ) (c : ℕ) → s ++ (c ∷ []) ≢ []
snoc-ne [] c e = cc
snoc-ne (d ∷ s) c e = cc

number-digits : (room i : ℕ) → i < bound room → i < 2 ^ 32 → number 10 0 (digits room 10 i) ≡ i
unfolding digits bound
number-digits zero i h k = number-nil 0 ∙ omega arith
number-digits (suc room) i h k = elim (Bool-cases (i / 10 == 0)) [
  | inl e ↦ rw e (
      rw (number-append 0 [] (digit (i % 10)) tt (digit-IsDigit i))
        (rw (digit_value i, number-nil 0) (single i (small i e))))
  | inr e ↦
      rw
        (
          e,
          number-append 0 (digits room 10 (i / 10)) (digit (i % 10)) (digits-IsDigit room (i / 10))
              (digit-IsDigit i),
          number-digits room (i / 10) (omega arith) (omega arith),
          digit_value i,
        )
        (omega arith)
]

take-all : (n : ℕ) (s : List ℕ) → length s ≤ n → take n s ≡ s
take-all zero [] h = refl
take-all zero (c ∷ s) h = absurd (omega arith)
take-all (suc n) [] h = refl
take-all (suc n) (c ∷ s) h = ap (λ (t : List ℕ). c ∷ t) (take-all n s (omega arith))

length-digits : (room i : ℕ) → length (digits room 10 i) ≤ room
unfolding digits
length-digits zero i = omega arith
length-digits (suc room) i = elim (Bool-cases (i / 10 == 0)) [
  | inl e ↦ rw e (omega arith)
  | inr e ↦
      let ih = length-digits room (i / 10) in
      rw (e, length-append (digits room 10 (i / 10)) (digit (i % 10) ∷ [])) (omega (arith, ih))
]

-- What `strtol` makes of a text that begins with a digit.
strtol-number : (s : List ℕ) → All IsDigit s → s ≢ [] → strtol s 10 ≡ number 10 0 s
unfolding strtol skip_space
strtol-number [] h ne = absurd (ne refl)
strtol-number (c ∷ s) h ne = ground (arith, h.0.0, h.0.1)

digits-ne : (room i : ℕ) → digits (suc room) 10 i ≢ []
unfolding digits
digits-ne room i = elim (Bool-cases (i / 10 == 0)) [
  | inl e ↦ rw e (snoc-ne [] (digit (i % 10)))
  | inr e ↦ rw e (snoc-ne (digits room 10 (i / 10)) (digit (i % 10)))
]

-- A number below 2 ^ 31 that printint writes in base 10 into 64 characters or more is read back by
-- strtol in base 10.
pub strtol-printint : (max i : ℕ) → 64 ≤ max → i < 2 ^ 31 → strtol (printint max i 10) 10 ≡ i
unfolding printint bound
strtol-printint max i room small =
    rw (take-all max (digits 64 10 i) (omega (arith, length-digits 64 i))) (
      strtol-number (digits 64 10 i) (digits-IsDigit 64 i) (digits-ne 63 i)
      ∙ number-digits 64 i (omega arith) (omega arith))
