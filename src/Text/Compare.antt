-- ===== src/Text/Compare.antt =====
-- `strcmp` decides whether two strings are the same, and `strlcpy` copies as much as fits.
use agatha.Prelude.{
  ℕ, zero, suc, ◌+◌, ◌-◌, ◌%◌, ◌^◌, ◌<◌, ◌≤◌, ◌≡◌, ◌≢◌, refl, subst, sym, ap, ◌∙◌, ◌↔◌, true, arith,
  List, [], ◌∷◌, ◌++◌, length, length-append, take, All,
}
use agatha.Text.{next, strncmp, strlen, strcmp, copied, strlcpy}

-- A string has no 0 before its end.
abbrev pub IsText : List ℕ → Type 0
IsText s = All (λ c. c ≢ 0) s

strlen-length : (s : List ℕ) → IsText s → strlen s ≡ length s
unfolding strlen
strlen-length [] h = refl
strlen-length (c ∷ s) h = rw (strlen-length s h.1) (ground arith)

cons_congr : {c d : ℕ} {s t : List ℕ} → c ≡ d → s ≡ t → ◌≡◌ {A = List ℕ} (c ∷ s) (d ∷ t)
cons_congr e f = cc

strncmp-eq : (s t : List ℕ) → IsText s → length s ≡ length t → strncmp s t (length s) ≡ true → s ≡ t
unfolding strncmp
strncmp-eq [] [] h e b = refl
strncmp-eq [] (d ∷ t) h e b = absurd (omega arith)
strncmp-eq (c ∷ s) [] h e b = absurd (omega arith)
strncmp-eq (c ∷ s) (d ∷ t) h e b =
    let same : c ≡ d = ground arith in
    let rest : strncmp s t (length s) ≡ true = ground arith in
    cons_congr same (strncmp-eq s t h.1 (omega arith) rest)

strncmp-same : (s : List ℕ) (n : ℕ) → strncmp s s n ≡ true
unfolding strncmp
strncmp-same s zero = refl
strncmp-same s (suc n) = rw (strncmp-same (next s) n) (ground arith)

strcmp_cases :
    (s t : List ℕ) → strcmp s t ≡ true → (strlen s ≡ strlen t) × (strncmp s t (strlen s) ≡ true)
unfolding strcmp
strcmp_cases s t h = (ground arith, ground arith)

strcmp_same : (s : List ℕ) → strcmp s s ≡ true
unfolding strcmp
strcmp_same s = rw (strncmp-same s (strlen s)) (ground arith)

-- On strings, which have no 0 before their end, strcmp is true exactly for equal ones.
pub strcmp_iff : (s t : List ℕ) → IsText s → IsText t → (strcmp s t ≡ true) ↔ (s ≡ t)
strcmp_iff s t h k = (there, back)
  where
    there : strcmp s t ≡ true → s ≡ t
    there b =
        let (e, same) = strcmp_cases s t b in
        let ls = strlen-length s h in
        strncmp-eq s t h (sym ls ∙ e ∙ strlen-length t k)
          (subst (λ n. strncmp s t n ≡ true) ls same)

    back : s ≡ t → strcmp s t ≡ true
    back e = subst (λ u. strcmp s u ≡ true) e (strcmp_same s)

copied-take : (n : ℕ) (s : List ℕ) → IsText s → copied n s ≡ take n s
unfolding copied
copied-take zero s h = refl
copied-take (suc n) [] h = refl
copied-take (suc n) (c ∷ s) h = rw (copied-take n s h.1) (ground arith)

pub length-copied : (n : ℕ) (s : List ℕ) → length (copied n s) ≤ n
unfolding copied
length-copied zero s = omega arith
length-copied (suc n) [] = omega arith
length-copied (suc n) (c ∷ s) = let ih = length-copied n s in ground arith

-- For a max that is not 0 and is a 32-bit number, strlcpy of a string writes its first max - 1
-- characters and a 0, returns the number of bytes that it wrote, and this is at most max.
strlcpy-take :
    (src : List ℕ) (max : ℕ)
    → IsText src
    → 0 < max
    → max < 2 ^ 32
    → ((strlcpy src max).0 ≡ take (max - 1) src ++ (0 ∷ []))
      × ((strlcpy src max).1 ≡ length (strlcpy src max).0)
      × ((strlcpy src max).1 ≤ max)
unfolding strlcpy
strlcpy-take src max h pos small =
    let bound : (max + (2 ^ 32 - 1)) % 2 ^ 32 ≡ max - 1 = omega arith in
    let n = (max + (2 ^ 32 - 1)) % 2 ^ 32 in
    let le = length-copied n src in
    (
      ap (λ (u : List ℕ). u ++ (0 ∷ [])) (copied-take n src h ∙ ap (λ m. take m src) bound),
      sym (length-append (copied n src) (0 ∷ [])),
      omega (arith, le, bound),
    )
