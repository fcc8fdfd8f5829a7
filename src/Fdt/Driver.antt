-- ===== src/Fdt/Driver.antt =====
-- fdt_compatable of lib/fdt/fdt.c, which looks for a string that two lists of strings share.
use agatha.Prelude.{
  ℕ, zero, suc, ◌+◌, ◌-◌, ◌^◌, ◌%◌, ◌<◌, ◌≤◌, ◌≡◌, ◌≢◌, refl, ap, subst, arith, Bool, Bool-cases,
  inl, inr, true, false, not, ◌||◌, ◌&&◌, ltb, ◌==◌, if◌then◌else◌, Option, none, some, List, [],
  ◌∷◌, length, All,
}
use agatha.Text.{strcmp}
use agatha.Fdt.{text_at}
use agatha.Fdt.Format.{TextAt}
use agatha.Fdt.Walk.{text_at-TextAt}
use agatha.Fdt.Calls.{StringsAt, strings_weight}

-- `dlen = drilen`, an `int`: 0 stands where it is 0 or below, which a size of 2 ^ 31 or more is.
abbrev pub int_of : (drilen : ℕ) → ℕ
int_of drilen = if ltb drilen (2 ^ 31) then drilen else 0

-- The inner loop. Its `dlen` is an `int`, for which 0 stands where it is 0 or below.
unfoldable pub same_driver : (fuel : ℕ) → (ℕ → ℕ) → (device : List ℕ) → (d dlen : ℕ) → Option Bool
same_driver zero mem device d dlen = none
same_driver (suc fuel) mem device d dlen = elim (ltb 0 dlen && not (mem d == 0)) [
  | false ↦ some false
  | true ↦ elim (text_at fuel mem d) [
    | none ↦ none
    | some s ↦ elim (strcmp device s) [
      | true ↦ some true
      | false ↦ same_driver fuel mem device (d + (length s + 1)) (dlen - (length s + 1))
    ]
  ]
]

-- `fdt_compatable`, whose `devlen` is a `size_t` that wraps around.
unfoldable pub fdt_compatable :
    (fuel : ℕ) → (ℕ → ℕ) → (device devlen driver drilen : ℕ) → Option Bool
fdt_compatable zero mem device devlen driver drilen = none
fdt_compatable (suc fuel) mem device devlen driver drilen =
    elim (ltb 0 devlen && not (mem device == 0)) [
      | false ↦ some false
      | true ↦ elim (text_at fuel mem device) [
        | none ↦ none
        | some s ↦ elim (same_driver fuel mem s driver (int_of drilen)) [
          | none ↦ none
          | some b ↦ elim b [
            | true ↦ some true
            | false ↦
                fdt_compatable fuel mem (device + (length s + 1))
                  ((devlen + (2 ^ 32 - (length s + 1))) % 2 ^ 32) driver drilen
          ]
        ]
      ]
    ]

-- Whether a string is one of a list, and whether two lists share one.
abbrev pub among : List ℕ → List (List ℕ) → Bool
among s [] = false
among s (t ∷ ts) = strcmp s t || among s ts

abbrev pub share : (devices drivers : List (List ℕ)) → Bool
share [] ts = false
share (s ∷ ss) ts = among s ts || share ss ts

filled :
    (mem : ℕ → ℕ) (a n : ℕ) (t : List ℕ)
    → TextAt mem a t
    → t ≢ []
    → 0 < n
    → (ltb 0 n && not (mem a == 0)) ≡ true
filled mem a n [] h some_char lt = absurd (some_char refl)
filled mem a n (c ∷ t) (at, pos, later) some_char lt = ground arith

same_driver-among :
    (ts : List (List ℕ)) (fuel : ℕ) (mem : ℕ → ℕ) (device : List ℕ) (d n : ℕ)
    → StringsAt mem d n ts
    → All (λ t. t ≢ []) ts
    → strings_weight ts ≤ fuel
    → same_driver fuel mem device d n ≡ some (among device ts)
unfolding same_driver
same_driver-among [] zero mem device d n h full le = absurd (omega arith)
same_driver-among (t ∷ ts) zero mem device d n h full le = absurd (omega arith)
same_driver-among [] (suc fuel) mem device d n h full le =
    let done : (ltb 0 n && not (mem d == 0)) ≡ false = ground arith in rw (done, same_driver) refl
same_driver-among (t ∷ ts) (suc fuel) mem device d n (text, m, is, later) full le =
    let left : m ≡ n - (length t + 1) = omega arith in
    rw (filled mem d n t text full.0 (omega arith), same_driver)
      (rw (text_at-TextAt fuel mem d t text (omega arith)) (elim (Bool-cases (strcmp device t)) [
        | inl b ↦ rw b refl
        | inr b ↦ rw b (
            same_driver-among ts fuel mem device (d + (length t + 1)) (n - (length t + 1))
              (subst (λ x. StringsAt mem (d + (length t + 1)) x ts) left later) full.1
              (omega arith))
      ]))

-- On two lists of strings that are not empty, the first of less than 2 ^ 32 bytes and the second of
-- less than 2 ^ 31, with enough fuel for both, fdt_compatable ends and is true exactly if strcmp finds
-- a string of one the same as a string of the other.
pub fdt_compatable-share :
    (ss ts : List (List ℕ)) (fuel : ℕ) (mem : ℕ → ℕ) (device devlen driver drilen : ℕ)
    → StringsAt mem device devlen ss
    → StringsAt mem driver drilen ts
    → All (λ t. t ≢ []) ss
    → All (λ t. t ≢ []) ts
    → devlen < 2 ^ 32
    → drilen < 2 ^ 31
    → strings_weight ss + strings_weight ts ≤ fuel
    → fdt_compatable fuel mem device devlen driver drilen ≡ some (share ss ts)
unfolding fdt_compatable
fdt_compatable-share [] ts zero mem device devlen driver drilen h k full full' small int_size le =
    absurd (omega arith)
fdt_compatable-share (s ∷ ss) ts zero mem device devlen driver drilen h k full full' small int_size
      le =
    absurd (omega arith)
fdt_compatable-share [] ts (suc fuel) mem device devlen driver drilen h k full full' small int_size
      le =
    let done : (ltb 0 devlen && not (mem device == 0)) ≡ false = ground arith in
    rw (done, fdt_compatable) refl
fdt_compatable-share (s ∷ ss) ts (suc fuel) mem device devlen driver drilen (text, m, is, later) k
      full full' small int_size le =
    let is_int : int_of drilen ≡ drilen = ground arith in
    let left : m ≡ (devlen + (2 ^ 32 - (length s + 1))) % 2 ^ 32 = omega arith in
    rw (filled mem device devlen s text full.0 (omega arith), fdt_compatable)
      (rw (text_at-TextAt fuel mem device s text (omega arith)) (
        rw (ap (same_driver fuel mem s driver) is_int) (
          rw (same_driver-among ts fuel mem s driver drilen k full' (omega arith))
            (elim (Bool-cases (among s ts)) [
              | inl b ↦ rw b refl
              | inr b ↦ rw b (
                  fdt_compatable-share ss ts fuel mem (device + (length s + 1))
                    ((devlen + (2 ^ 32 - (length s + 1))) % 2 ^ 32) driver drilen
                    (subst (λ x. StringsAt mem (device + (length s + 1)) x ss) left later) k full.1
                    full' (omega arith) int_size (omega arith))
            ]))))
