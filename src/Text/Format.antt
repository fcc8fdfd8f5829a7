-- ===== src/Text/Format.antt =====
-- How much `vsnprintf` writes.
use agatha.Prelude.{
  ℕ, zero, suc, ◌-◌, ◌^◌, ◌≤◌, ◌≡◌, refl, subst, ◌≢◌, All, Bool, true, false, ltb, ◌==◌,
  if◌then◌else◌, arith, Bool-cases, inl, inr, List, [], ◌∷◌, ◌++◌, length, length-append, take,
  Option, none, some,
}
use agatha.Text.{Arg, word, string, text_of, convert, copied, printint, signed, digits, vsnprintf}

length-take : (n : ℕ) (s : List ℕ) → length (take n s) ≤ n
length-take zero [] = omega arith
length-take zero (c ∷ s) = omega arith
length-take (suc n) [] = omega arith
length-take (suc n) (c ∷ s) = let ih = length-take n s in omega (arith, ih)

length-printint : (room i base : ℕ) → length (printint room i base) ≤ room
unfolding printint
length-printint room i base = length-take room (digits 64 base i)

length-copied : (n : ℕ) (s : List ℕ) → length (copied n s) ≤ n
unfolding copied
length-copied zero s = omega arith
length-copied (suc n) [] = omega arith
length-copied (suc n) (c ∷ s) = let ih = length-copied n s in ground arith

-- What a conversion writes fits into the room.
data Fits (room : ℕ) : Option (List ℕ × List Arg) → Type 0 where
  nothing : Fits room none
  fits : (out : List ℕ) (args : List Arg) → length out ≤ room → Fits room (some (out, args))

Fits-if :
    (room : ℕ) (b : Bool) {x y : Option (List ℕ × List Arg)}
    → Fits room x
    → Fits room y
    → Fits room (if b then x else y)
Fits-if room true h k = h
Fits-if room false h k = k

signed-length : (room v : ℕ) → length (signed (suc room) v) ≤ suc room
signed-length room v = elim (Bool-cases (ltb v (2 ^ 31))) [
  | inl e ↦ rw e (length-printint (suc room) v 10)
  | inr e ↦ let h = length-printint (suc room - 1) (2 ^ 32 - v) 10 in rw e (omega (arith, h))
]

convert-Fits : (room c : ℕ) (args : List Arg) → Fits (suc room) (convert (suc room) c args)
unfolding convert
convert-Fits room c [] =
    Fits-if _ (c == 37) (fits _ _ (omega arith)) (Fits-if _ _ nothing (fits _ _ (omega arith)))
convert-Fits room c (string s ∷ args) = Fits-if _ (c == 37) (fits _ _ (omega arith)) (
    Fits-if _ (c == 115) (fits _ _ (length-copied (suc room) (text_of s)))
      (Fits-if _ _ nothing (fits _ _ (omega arith))))
convert-Fits room c (word v ∷ args) = Fits-if _ (c == 37) (fits _ _ (omega arith)) (
    Fits-if _ (c == 105) (fits _ _ (signed-length room v)) (
      Fits-if _ (c == 117) (fits _ _ (length-printint (suc room) v 10)) (
        Fits-if _ (c == 120) (fits _ _ (length-printint (suc room) v 16)) (
          Fits-if _ (c == 98) (fits _ _ (length-printint (suc room) v 2)) (
            Fits-if _ (c == 99) (fits _ _ (omega arith))
              (Fits-if _ (c == 115) nothing (fits _ _ (omega arith))))))))

abbrev Within : ℕ → Option (List ℕ) → Type 0
Within room none = Unit
Within room (some s) = length s ≤ room

-- The three kinds of steps of the loop.
plain :
    (room c : ℕ) (r : Option (List ℕ))
    → Within room r
    → Within (suc room) (elim r [ none ↦ none | some more ↦ some (c ∷ more) ])
plain room c none h = tt
plain room c (some more) h = omega (arith, h)

joined :
    (room : ℕ) (out : List ℕ) (r : Option (List ℕ))
    → length out ≤ room
    → Within (room - length out) r
    → Within room (elim r [ none ↦ none | some more ↦ some (out ++ more) ])
joined room out none h k = tt
joined room out (some more) h k = rw (length-append out more) (omega (arith, h, k))

conversion :
    (room : ℕ) (rest : List ℕ → List Arg → Option (List ℕ))
    → ((out : List ℕ) (args : List Arg) → Within (room - length out) (rest out args))
    → (r : Option (List ℕ × List Arg)) → Fits room r
    → Within room (elim r [
      | none ↦ none
      | some (out, args) ↦ elim (rest out args) [ none ↦ none | some more ↦ some (out ++ more) ]
    ])
conversion room rest h none k = tt
conversion room rest h (some (out, args)) (fits o a le) =
    joined room out (rest out args) le (h out args)

single :
    (room c : ℕ)
    → Within (suc room) (if c == 37 then none else if c == 0 then some [] else some (c ∷ []))
single room c = elim (Bool-cases (c == 37)) [
  | inl e ↦ rw e tt
  | inr e ↦ elim (Bool-cases (c == 0)) [
    | inl e' ↦ rw (e, e') (omega arith)
    | inr e' ↦ rw (e, e') (omega arith)
  ]
]

within : (room : ℕ) (fmt : List ℕ) (args : List Arg) → Within room (vsnprintf room fmt args)
unfolding vsnprintf
within room [] args = omega arith
within zero (c ∷ fmt) args = omega arith
within (suc room) (c ∷ []) args = single room c
within (suc room) (c ∷ d ∷ fmt) args = elim (Bool-cases (c == 0)) [
  | inl e ↦ rw e (omega arith)
  | inr e ↦ elim (Bool-cases (c == 37)) [
    | inl e' ↦
        rw (e, e')
          (conversion (suc room) (λ out args'. vsnprintf (suc room - length out) fmt args')
            (λ out args'. within (suc room - length out) fmt args') (convert (suc room) d args)
            (convert-Fits room d args))
    | inr e' ↦
        rw (e, e') (plain room c (vsnprintf room (d ∷ fmt) args) (within room (d ∷ fmt) args))
  ]
]

-- Where vsnprintf ends with a text, for any format and arguments, the text has at most max characters
-- before the 0 that ends it.
length-vsnprintf :
    (max : ℕ) (fmt : List ℕ) (args : List Arg) (s : List ℕ)
    → vsnprintf max fmt args ≡ some s
    → length s ≤ max
length-vsnprintf max fmt args s h = subst (Within max) h (within max fmt args)

-- A format of max characters, none of them 0 or a percent sign, is written in full, so that the 0
-- behind the text is at max, one past a buffer of max characters.
vsnprintf-full :
    (fmt : List ℕ) → All (λ c. (c ≢ 0) × (c ≢ 37)) fmt → vsnprintf (length fmt) fmt [] ≡ some fmt
unfolding vsnprintf
vsnprintf-full [] h = refl
vsnprintf-full (c ∷ []) h = ground arith
vsnprintf-full (c ∷ d ∷ fmt) h = rw (vsnprintf-full (d ∷ fmt) h.1) (ground (arith, h.0.0, h.0.1))
