-- ===== src/Fdt/Reserved.antt =====
-- fdt_check_reserved of lib/fdt/fdt.c.
use agatha.Prelude.{
  ℕ, zero, suc, ◌+◌, ◌^◌, ◌%◌, ◌<◌, ◌≡◌, refl, ◌∙◌, arith, Bool-cases, inl, inr, true, false, ◌||◌,
  ◌==◌, Option, none, some, List, [], ◌∷◌, length,
}
use agatha.Fdt.{beto64, Header, fdt_check}

-- The calls of the callback by the loop over the entries from `e` on, each with a start and a length.
unfoldable pub reserved_loop : (fuel : ℕ) → (ℕ → ℕ) → (e : ℕ) → Option (List (ℕ × ℕ))
reserved_loop zero mem e = none
reserved_loop (suc fuel) mem e = elim (beto64 mem e == 0 || beto64 mem (e + 8) == 0) [
  | true ↦ some []
  | false ↦ elim (reserved_loop fuel mem (e + 16)) [
    | none ↦ none
    | some calls ↦ some ((beto64 mem e % 2 ^ 32, beto64 mem (e + 8) % 2 ^ 32) ∷ calls)
  ]
]

-- `fdt_check_reserved`
unfoldable pub check_reserved : (fuel : ℕ) → (ℕ → ℕ) → (dtb : ℕ) → Option (List (ℕ × ℕ))
check_reserved fuel mem dtb = elim (fdt_check mem dtb) [
  | none ↦ some []
  | some head ↦ reserved_loop fuel mem (dtb + head.off_mem_rsvmap)
]

-- From `e` on there are these entries, and one of zeros behind them.
abbrev pub EntriesAt : (ℕ → ℕ) → (e : ℕ) → List (ℕ × ℕ) → Type 0
EntriesAt mem e [] = (beto64 mem e ≡ 0) × (beto64 mem (e + 8) ≡ 0)
EntriesAt mem e (x ∷ xs) =
    (beto64 mem e ≡ x.0) × (beto64 mem (e + 8) ≡ x.1) × EntriesAt mem (e + 16) xs

-- The entries before the first that has an address or a size of 0.
abbrev pub before_zero : List (ℕ × ℕ) → List (ℕ × ℕ)
before_zero [] = []
before_zero (x ∷ xs) = elim (x.0 == 0 || x.1 == 0) [
  | true ↦ []
  | false ↦ (x.0 % 2 ^ 32, x.1 % 2 ^ 32) ∷ before_zero xs
]

loop-EntriesAt :
    (xs : List (ℕ × ℕ)) (fuel : ℕ) (mem : ℕ → ℕ) (e : ℕ)
    → EntriesAt mem e xs
    → length xs < fuel
    → reserved_loop fuel mem e ≡ some (before_zero xs)
unfolding reserved_loop
loop-EntriesAt xs zero mem e h lt = absurd (omega arith)
loop-EntriesAt [] (suc fuel) mem e (a, b) lt =
    let done : (beto64 mem e == 0 || beto64 mem (e + 8) == 0) ≡ true = rw a refl in
    rw (done, reserved_loop) refl
loop-EntriesAt (x ∷ xs) (suc fuel) mem e (a, b, later) lt =
    let same : (beto64 mem e == 0 || beto64 mem (e + 8) == 0) ≡ (x.0 == 0 || x.1 == 0) =
      rw a (rw b refl) in
    elim (Bool-cases (x.0 == 0 || x.1 == 0)) [
      | inl c ↦ rw (same ∙ c, reserved_loop) (rw (c, before_zero) refl)
      | inr c ↦
          rw (same ∙ c, reserved_loop)
            (rw (loop-EntriesAt xs fuel mem (e + 16) later (omega arith))
              (rw (c, before_zero) (rw a (rw b refl))))
    ]

-- In a tree whose header passes fdt_check and whose memory reservations end with one of zeros, with
-- more fuel than reservations, fdt_check_reserved gives the callback the addresses and sizes modulo 2
-- ^ 32 of those before the first with an address or a size of 0, in their order.
pub check_reserved-before_zero :
    (fuel : ℕ) (mem : ℕ → ℕ) (dtb : ℕ) (head : Header) (xs : List (ℕ × ℕ))
    → fdt_check mem dtb ≡ some head
    → EntriesAt mem (dtb + head.off_mem_rsvmap) xs
    → length xs < fuel
    → check_reserved fuel mem dtb ≡ some (before_zero xs)
unfolding check_reserved
check_reserved-before_zero fuel mem dtb head xs is h lt =
    rw (is, check_reserved) (loop-EntriesAt xs fuel mem (dtb + head.off_mem_rsvmap) h lt)
