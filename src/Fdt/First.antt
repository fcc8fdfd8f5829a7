-- ===== src/Fdt/First.antt =====
-- The first element of a list that passes a test, which is what a search in a tree is to find.
use agatha.Prelude.{
  ◌≡◌, ◌↔◌, refl, ap, sym, ◌∙◌, Bool, true, false, true-ne-false, Bool-cases, inl, inr, List, [],
  ◌∷◌, ◌++◌, All, Option, none, some,
}

-- An element with `P` and none before it that has it, or nothing where no element has it.
abbrev pub FirstOf : {A : Type 0} → (A → Type 0) → List A → Option A → Type 0
FirstOf P xs none = All (λ x. ¬ P x) xs
FirstOf {A} P xs (some x) =
    (before : List A) × (after : List A) × (xs ≡ before ++ (x ∷ after))
    × All (λ y. ¬ P y) before
    × P x

unfoldable pub first : {A : Type 0} → (A → Bool) → List A → Option A
first test [] = none
first test (x ∷ xs) = elim (test x) [ true ↦ some x | false ↦ first test xs ]

FirstOf-later :
    {A : Type 0} (P : A → Type 0) (x : A) (xs : List A) (o : Option A)
    → ¬ P x
    → FirstOf P xs o
    → FirstOf P (x ∷ xs) o
FirstOf-later P x xs none out h = (out, h)
FirstOf-later P x xs (some y) out (before, after, e, none_before, has) =
    (x ∷ before, after, ap (λ l. x ∷ l) e, (out, none_before), has)

pub first-FirstOf :
    {A : Type 0} (P : A → Type 0) (test : A → Bool) (xs : List A)
    → All (λ x. (test x ≡ true) ↔ P x) xs
    → FirstOf P xs (first test xs)
unfolding first
first-FirstOf P test [] h = tt
first-FirstOf P test (x ∷ xs) (h, hs) = elim (Bool-cases (test x)) [
  | inl e ↦ rw (e, first) ([], xs, refl, tt, h.0 e)
  | inr e ↦
      rw (e, first)
        (FirstOf-later P x xs (first test xs) (λ has. true-ne-false (sym (h.1 has) ∙ e))
          (first-FirstOf P test xs hs))
]
