-- ===== src/Text/Tests.antt =====
-- Runs on small strings.
use agatha.Prelude.{ℕ, ◌≡◌, refl, arith, List, [], ◌∷◌, some}
use agatha.Text.{printint, digits, strtol, vsnprintf, convert, Arg}
use agatha.Text.Compare.{IsText}
use agatha.Text.Numbers.{strtol-printint}

-- "abc"
abbrev abc : List ℕ
abc = 97 ∷ 98 ∷ 99 ∷ []

abc-IsText : IsText abc
abc-IsText = (omega arith, (omega arith, (omega arith, tt)))

strtol-printint_example : strtol (printint 64 1024 10) 10 ≡ 1024
strtol-printint_example = strtol-printint 64 1024 (omega arith) (omega arith)

abbrev a12 : List ℕ
a12 = 97 ∷ 49 ∷ 50 ∷ []

-- "a%i" with 12
run : vsnprintf 8 (97 ∷ 37 ∷ 105 ∷ []) (Arg.word 12 ∷ []) ≡ some (97 ∷ 49 ∷ 50 ∷ [])
unfolding vsnprintf convert printint digits
run = refl
