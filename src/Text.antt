-- ===== src/Text.antt =====
-- Strings: lib/string/string.c and lib/string/conv.c. A `char *` is the list of the characters from it
-- on; the end of the list is the 0 that ends the string.
pub mod Compare
pub mod Numbers
pub mod Format
pub mod Tests
use agatha.Prelude.{
  ℕ, zero, suc, ◌+◌, ◌-◌, ◌*◌, ◌/◌, ◌%◌, ◌^◌, Bool, true, false, ◌&&◌, ◌||◌, ltb, leb, ◌==◌,
  if◌then◌else◌, List, [], ◌∷◌, ◌++◌, length, take, Option, none, some,
}

-- `*s` and `s + 1`
abbrev pub char_at : List ℕ → ℕ
char_at [] = 0
char_at (c ∷ s) = c

abbrev pub next : List ℕ → List ℕ
next [] = []
next (c ∷ s) = s

-- ' ', '\n' and '\t'
abbrev pub isspace : ℕ → Bool
isspace c = c == 32 || c == 10 || c == 9

-- `strncmp`, which is true for strings that are the same.
unfoldable pub strncmp : List ℕ → List ℕ → ℕ → Bool
strncmp s t zero = true
strncmp s t (suc len) =
    let rest = strncmp (next s) (next t) len in
    if char_at s == 0 && char_at t == 0
    then true
    else if char_at s == char_at t
    then rest
    else false

unfoldable pub strlen : List ℕ → ℕ
strlen [] = 0
strlen (c ∷ s) = let n = strlen s in if c == 0 then 0 else suc n

-- `strcmp`
unfoldable pub strcmp : List ℕ → List ℕ → Bool
strcmp s t = if strlen s == strlen t then strncmp s t (strlen s) else false

-- The characters that the loop of `strlcpy` copies, with `max - 1` as its bound.
unfoldable pub copied : ℕ → List ℕ → List ℕ
copied zero s = []
copied (suc n) [] = []
copied (suc n) (c ∷ s) = let rest = copied n s in if c == 0 then [] else c ∷ rest

-- `strlcpy`: what it writes to `dest`, and its result. A `max` of 0 wraps around.
unfoldable pub strlcpy : List ℕ → ℕ → List ℕ × ℕ
unfolding copied
strlcpy src max =
    let s = copied ((max + (2 ^ 32 - 1)) % 2 ^ 32) src in (s ++ (0 ∷ []), length s + 1)

-- The digit of a number below the base.
abbrev pub digit : ℕ → ℕ
digit i = if ltb 9 i then 97 + (i - 10) else 48 + i

-- The digits of the first loop of `printint`, the highest first; its buffer has room for 64.
unfoldable pub digits : ℕ → (base i : ℕ) → List ℕ
digits zero base i = []
digits (suc room) base i =
    let higher = digits room base (i / base) in
    if i / base == 0 then digit (i % base) ∷ [] else higher ++ (digit (i % base) ∷ [])

-- `printint`: what it writes.
unfoldable pub printint : (max i base : ℕ) → List ℕ
unfolding digits
printint max i base = take max (digits 64 base i)

-- The white space before a number.
unfoldable pub skip_space : List ℕ → List ℕ
skip_space [] = []
skip_space (c ∷ s) = let rest = skip_space s in if isspace c then rest else c ∷ s

-- The loop of `strtol` on a `long` as its bit pattern.
unfoldable pub number : (base n : ℕ) → List ℕ → ℕ
number base n [] = n
number base n (c ∷ s) =
    let rest = number base ((n * base + c + (2 ^ 32 - 48)) % 2 ^ 32) s in
    if c == 0 || isspace c then n else rest

-- `strtol`
unfoldable pub strtol : List ℕ → ℕ → ℕ
unfolding skip_space number
strtol s base =
    let s' = skip_space s in
    if char_at s' == 43
    then number base 0 (next s')
    else if char_at s' == 45
    then (2 ^ 32 - number base 0 (next s')) % 2 ^ 32
    else number base 0 s'

-- An argument of `vsnprintf`, where a `char *` may be nil.
pub data Arg : Type 0 where
  word : ℕ → Arg
  string : Option (List ℕ) → Arg

-- "(null)"
abbrev null_text : List ℕ
null_text = 40 ∷ 110 ∷ 117 ∷ 108 ∷ 108 ∷ 41 ∷ []

abbrev pub text_of : Option (List ℕ) → List ℕ
text_of none = null_text
text_of (some s) = s

-- What `%i` writes where there is room for at least one character; `-i` has no value in C for the least
-- `int`, which prints as 2147483648 here.
abbrev pub signed : (room v : ℕ) → List ℕ
signed room v =
    if ltb v (2 ^ 31) then printint room v 10 else 45 ∷ printint (room - 1) (2 ^ 32 - v) 10

-- What one conversion writes into `room` characters, and the arguments that are left; `none` if the
-- argument is missing or of the other kind.
unfoldable pub convert : (room c : ℕ) → List Arg → Option (List ℕ × List Arg)
unfolding printint copied
convert room c (word v ∷ args) =
    if c == 37
    then some (37 ∷ [], word v ∷ args)
    else if c == 105
    then some (signed room v, args)
    else if c == 117
    then some (printint room v 10, args)
    else if c == 120
    then some (printint room v 16, args)
    else if c == 98
    then some (printint room v 2, args)
    else if c == 99
    then some (v % 256 ∷ [], args)
    else if c == 115
    then none
    else some ([], word v ∷ args)
convert room c (string s ∷ args) =
    if c == 37
    then some (37 ∷ [], string s ∷ args)
    else if c == 115
    then some (copied room (text_of s), args)
    else if c == 105 || c == 117 || c == 120 || c == 98 || c == 99
    then none
    else some ([], string s ∷ args)
convert room c [] =
    if c == 37
    then some (37 ∷ [], [])
    else if c == 105 || c == 117 || c == 120 || c == 98 || c == 99 || c == 115
    then none
    else some ([], [])

-- The loop of `vsnprintf`: what it writes into `room` characters, without the 0 that it writes behind
-- them. A format that ends in '%' is read past its end.
unfoldable pub vsnprintf : (room : ℕ) → (fmt : List ℕ) → List Arg → Option (List ℕ)
vsnprintf room [] args = some []
vsnprintf zero (c ∷ fmt) args = some []
vsnprintf (suc room) (c ∷ []) args =
    if c == 37 then none else if c == 0 then some [] else some (c ∷ [])
vsnprintf (suc room) (c ∷ d ∷ fmt) args =
    if c == 0
    then some []
    else if c == 37
    then (elim (convert (suc room) d args) [
      | none ↦ none
      | some (out, args') ↦ elim (vsnprintf (suc room - length out) fmt args') [
        | none ↦ none
        | some more ↦ some (out ++ more)
      ]
    ])
    else elim (vsnprintf room (d ∷ fmt) args) [ none ↦ none | some more ↦ some (c ∷ more) ]
