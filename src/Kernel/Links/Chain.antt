-- ===== src/Kernel/Links/Chain.antt =====
-- Chains of pointers, and what an assignment to one link does to a chain.
use agatha.Prelude.{ℕ, ◌≡◌, ◌≢◌, refl, List, [], ◌∷◌, ◌++◌, arith, update, All, All-left, All-right}

-- The first element, and the last, of a chain that ends before `e` and begins behind `b`.
abbrev pub first : List ℕ → ℕ → ℕ
first [] e = e
first (x ∷ xs) e = x

abbrev pub last : ℕ → List ℕ → ℕ
last b [] = b
last b (x ∷ xs) = last x xs

-- `xs` are not nil, their `prev` lead back to `b` and their `next` on to `e`.
abbrev pub Chain : (nx pv : ℕ → ℕ) → ℕ → List ℕ → ℕ → Type 0
Chain nx pv b [] e = Unit
Chain nx pv b (x ∷ xs) e = (x ≢ 0) × (pv x ≡ b) × (nx x ≡ first xs e) × Chain nx pv x xs e

abbrev pub NotIn : ℕ → List ℕ → Type 0
NotIn a xs = All (λ y. y ≢ a) xs

abbrev pub Distinct : List ℕ → Type 0
Distinct [] = Unit
Distinct (x ∷ xs) = NotIn x xs × Distinct xs

pub first-append : (xs ys : List ℕ) (e : ℕ) → first (xs ++ ys) e ≡ first xs (first ys e)
first-append [] ys e = refl
first-append (x ∷ xs) ys e = refl

pub last-append : (b : ℕ) (xs ys : List ℕ) → last b (xs ++ ys) ≡ last (last b xs) ys
last-append b [] ys = refl
last-append b (x ∷ xs) ys = last-append x xs ys

pub last-NotIn : (a b : ℕ) (xs : List ℕ) → b ≢ a → NotIn a xs → last b xs ≢ a
last-NotIn a b [] h o = h
last-NotIn a b (x ∷ xs) h o = last-NotIn a x xs o.0 o.1

module _ (nx pv : ℕ → ℕ) where
  pub Chain-next :
      (a v b : ℕ) (xs : List ℕ) (e : ℕ)
      → NotIn a xs
      → Chain nx pv b xs e
      → Chain (update nx a v) pv b xs e
  Chain-next a v b [] e o c = tt
  Chain-next a v b (x ∷ xs) e o c = (c.0, c.1, ground arith, Chain-next a v x xs e o.1 c.3)

  pub Chain-prev :
      (a v b : ℕ) (xs : List ℕ) (e : ℕ)
      → NotIn a xs
      → Chain nx pv b xs e
      → Chain nx (update pv a v) b xs e
  Chain-prev a v b [] e o c = tt
  Chain-prev a v b (x ∷ xs) e o c = (c.0, ground arith, c.2, Chain-prev a v x xs e o.1 c.3)

  pub Chain-append :
      (b : ℕ) (xs ys : List ℕ) (e : ℕ)
      → Chain nx pv b xs (first ys e)
      → Chain nx pv (last b xs) ys e
      → Chain nx pv b (xs ++ ys) e
  Chain-append b [] ys e c d = d
  Chain-append b (x ∷ xs) ys e c d =
      (c.0, c.1, ground (arith, first-append xs ys e), Chain-append x xs ys e c.3 d)

  pub Chain-left :
      (b : ℕ) (xs ys : List ℕ) (e : ℕ) → Chain nx pv b (xs ++ ys) e → Chain nx pv b xs (first ys e)
  Chain-left b [] ys e c = tt
  Chain-left b (x ∷ xs) ys e c =
      (c.0, c.1, ground (arith, first-append xs ys e), Chain-left x xs ys e c.3)

  pub Chain-right :
      (b : ℕ) (xs ys : List ℕ) (e : ℕ) → Chain nx pv b (xs ++ ys) e → Chain nx pv (last b xs) ys e
  Chain-right b [] ys e c = c
  Chain-right b (x ∷ xs) ys e c = Chain-right x xs ys e c.3

  pub last-ne-nil : (b : ℕ) (xs : List ℕ) (e : ℕ) → b ≢ 0 → Chain nx pv b xs e → last b xs ≢ 0
  last-ne-nil b [] e h c = h
  last-ne-nil b (x ∷ xs) e h c = last-ne-nil x xs e c.0 c.3

  -- The last element's `next` is set to a new end.
  pub Chain-set_end :
      (b x : ℕ) (xs : List ℕ) (e e' : ℕ)
      → Distinct (x ∷ xs)
      → Chain nx pv b (x ∷ xs) e
      → Chain (update nx (last x xs) e') pv b (x ∷ xs) e'
  Chain-set_end b x [] e e' d c = (c.0, c.1, ground arith, tt)
  Chain-set_end b x (y ∷ xs) e e' d c =
      (c.0, c.1, ground (arith, last-NotIn x y xs d.0.0 d.0.1), Chain-set_end x y xs e e' d.1 c.3)

  -- The first element's `prev` is set to a new predecessor.
  pub Chain-set_start :
      (b b' x : ℕ) (xs : List ℕ) (e : ℕ)
      → Distinct (x ∷ xs)
      → Chain nx pv b (x ∷ xs) e
      → Chain nx (update pv x b') b' (x ∷ xs) e
  Chain-set_start b b' x xs e d c = (c.0, ground arith, c.2, Chain-prev x b' x xs e d.0 c.3)

pub Distinct-left : (xs ys : List ℕ) → Distinct (xs ++ ys) → Distinct xs
Distinct-left [] ys d = tt
Distinct-left (x ∷ xs) ys d = (All-left (λ y. y ≢ x) xs ys d.0, Distinct-left xs ys d.1)

pub Distinct-right : (xs ys : List ℕ) → Distinct (xs ++ ys) → Distinct ys
Distinct-right [] ys d = d
Distinct-right (x ∷ xs) ys d = Distinct-right xs ys d.1

-- An element of the right part is not in the left part.
pub Distinct-middle : (xs : List ℕ) (p : ℕ) (ys : List ℕ) → Distinct (xs ++ (p ∷ ys)) → NotIn p xs
Distinct-middle [] p ys d = tt
Distinct-middle (x ∷ xs) p ys d =
    (ground (arith, (All-right (λ y. y ≢ x) xs (p ∷ ys) d.0).0), Distinct-middle xs p ys d.1)

pub Distinct-drop :
    (xs : List ℕ) (p : ℕ) (ys : List ℕ) → Distinct (xs ++ (p ∷ ys)) → Distinct (xs ++ ys)
Distinct-drop [] p ys d = d.1
Distinct-drop (x ∷ xs) p ys d = (NotIn-drop x xs p ys d.0, Distinct-drop xs p ys d.1)
  where
    NotIn-drop :
        (a : ℕ) (xs : List ℕ) (p : ℕ) (ys : List ℕ) → NotIn a (xs ++ (p ∷ ys)) → NotIn a (xs ++ ys)
    NotIn-drop a [] p ys o = o.1
    NotIn-drop a (x ∷ xs) p ys o = (o.0, NotIn-drop a xs p ys o.1)

pub Distinct-apart : (xs ys : List ℕ) → Distinct (xs ++ ys) → All (λ x. NotIn x ys) xs
Distinct-apart [] ys d = tt
Distinct-apart (x ∷ xs) ys d = (All-right (λ y. y ≢ x) xs ys d.0, Distinct-apart xs ys d.1)
