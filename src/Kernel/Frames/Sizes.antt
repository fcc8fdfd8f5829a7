-- ===== src/Kernel/Frames/Sizes.antt =====
-- The loop of `sys_obj_create` over the sizes that an object may have.
use agatha.Prelude.{
  ℕ, zero, suc, ◌*◌, ◌%◌, ◌^◌, ◌<◌, ◌≤◌, ◌≡◌, refl, sym, ap, ◌∙◌, subst, ◌↔◌, ◌⊎◌, inl, inr, Bool,
  true, false, ltb, ◌==◌, arith, none, some, true-ne-false,
}
use agatha.Kernel.Frames.{is_size}
use agatha.Kernel.Tables.{page_size}

-- `size`, doubled so often.
abbrev pub doubled : ℕ → ℕ → ℕ
doubled zero size = size
doubled (suc k) size = doubled k (size * 2)

-- A length above every size of 32 bits: the size wraps around to 0 and stays there.
stays_zero : (fuel len : ℕ) → 0 < len → is_size fuel 0 len ≡ none
unfolding is_size
stays_zero zero len h = refl
stays_zero (suc fuel) len h =
    let e : ltb len 0 ≡ false = ground arith in
    let e' : (0 == len) ≡ false = ground arith in rw (e, e') (stays_zero fuel len h)

-- A step of the loop below the length.
is_size-step :
    (fuel size len : ℕ)
    → size < len
    → is_size (suc fuel) size len ≡ is_size fuel (size * 2 % 2 ^ 32) len
unfolding is_size
is_size-step fuel size len h =
    let e : ltb len size ≡ false = ground arith in
    let e' : (size == len) ≡ false = ground arith in rw (e, e') refl

doubled-le : (k size : ℕ) → size ≤ doubled k size
doubled-le zero size = omega arith
doubled-le (suc k) size = let h = doubled-le k (size * 2) in omega arith

none_at : (size len : ℕ) → is_size 0 size len ≡ none
unfolding is_size
none_at size len = refl

never_ends :
    (rounds fuel size len : ℕ)
    → doubled rounds size ≡ 2 ^ 31
    → 2 ^ 31 < len
    → is_size fuel size len ≡ none
never_ends rounds zero size len e h = none_at size len
never_ends zero (suc fuel) size len e h =
    is_size-step fuel size len (omega arith)
    ∙ ap (λ x. is_size fuel x len) (omega arith)
    ∙ stays_zero fuel len (omega arith)
never_ends (suc rounds) (suc fuel) size len e h =
    let le = doubled-le rounds (size * 2) in
    let e' : doubled rounds (size * 2) ≡ 2 ^ 31 = e in
    let same : size * 2 % 2 ^ 32 ≡ size * 2 = omega arith in
    is_size-step fuel size len (omega arith)
    ∙ ap (λ x. is_size fuel x len) same
    ∙ never_ends rounds fuel (size * 2) len e' h

-- For a length above 2 ^ 31, the loop of sys_obj_create that looks for the length among the doublings
-- of PAGE_SIZE never ends: it is out of fuel with any fuel.
is_size-never_ends : (fuel len : ℕ) → 2 ^ 31 < len → is_size fuel page_size len ≡ none
is_size-never_ends fuel len h = never_ends 19 fuel page_size len refl h

-- The loop's answer: whether the length is among the doublings of `size`.
abbrev pub Answers : (fuel size len : ℕ) → Type 0
Answers fuel size len =
    (b : Bool) × (is_size fuel size len ≡ some b)
    × ((b ≡ true) ↔ ((k : ℕ) × (len ≡ doubled k size)))

Answers-equal : (fuel size : ℕ) → Answers (suc fuel) size size
unfolding is_size
Answers-equal fuel size =
    let e : ltb size size ≡ false = ground arith in
    let e' : (size == size) ≡ true = ground arith in
    (true, rw (e, e') refl, ((λ _. (0, refl)), (λ _. refl)))

Answers-above : (fuel size len : ℕ) → len < size → Answers (suc fuel) size len
unfolding is_size
Answers-above fuel size len h =
    let e : ltb len size ≡ true = ground arith in
    (
      false,
      rw e refl,
      (
        (λ t. absurd (true-ne-false (sym t))),
        (λ found. absurd (let le = doubled-le found.0 size in let at = found.1 in omega arith)),
      ),
    )

Answers-below :
    (fuel size len : ℕ)
    → size < len
    → size * 2 % 2 ^ 32 ≡ size * 2
    → Answers fuel (size * 2) len
    → Answers (suc fuel) size len
Answers-below fuel size len h same (b, e, (f, g)) = (
  b,
  is_size-step fuel size len h ∙ ap (λ x. is_size fuel x len) same ∙ e,
  ((λ q. let (k, r) = f q in (suc k, r)), (λ found. g (later found.0 found.1))),
)
  where
    later : (k : ℕ) → len ≡ doubled k size → (j : ℕ) × (len ≡ doubled j (size * 2))
    later zero r = absurd (omega arith)
    later (suc k) r = (k, r)

order : (a b : ℕ) → (a < b) ⊎ ((a ≡ b) ⊎ (b < a))
order a b = ground arith

ends :
    (rounds fuel size len : ℕ)
    → doubled rounds size ≡ 2 ^ 31
    → len ≤ 2 ^ 31
    → rounds < fuel
    → Answers fuel size len
ends rounds zero size len e h lt = absurd (omega arith)
ends zero (suc fuel) size len e h lt = elim (order size len) [
  | inl below ↦ absurd (omega arith)
  | inr (inl same) ↦ subst (λ x. Answers (suc fuel) size x) same (Answers-equal fuel size)
  | inr (inr above) ↦ Answers-above fuel size len above
]
ends (suc rounds) (suc fuel) size len e h lt = elim (order size len) [
  | inl below ↦
      let le = doubled-le rounds (size * 2) in
      let e' : doubled rounds (size * 2) ≡ 2 ^ 31 = e in
      Answers-below fuel size len below (omega arith)
        (ends rounds fuel (size * 2) len e h (omega arith))
  | inr (inl same) ↦ subst (λ x. Answers (suc fuel) size x) same (Answers-equal fuel size)
  | inr (inr above) ↦ Answers-above fuel size len above
]

-- For a length of at most 2 ^ 31, the loop of sys_obj_create that looks for the length of the frame
-- among the doublings of PAGE_SIZE ends within 20 rounds, and finds the length exactly if it is one of
-- them.
is_size-ends : (fuel len : ℕ) → len ≤ 2 ^ 31 → 19 < fuel → Answers fuel page_size len
is_size-ends fuel len h lt = ends 19 fuel page_size len refl h lt
