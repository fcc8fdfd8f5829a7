-- ===== src/Heap/Cover.antt =====
-- Which addresses the chunks cover: taking a chunk and putting it back neither loses memory nor hands
-- any out twice.
use agatha.Prelude.{
  ℕ, ◌+◌, ◌*◌, ◌<◌, ◌≡◌, refl, sym, ap, ◌∙◌, subst, arith, Bool, true, false, not, ◌&&◌, ltb, leb,
  ◌==◌, if◌then◌else◌, ==_iff, true-ne-false, Bool-cases, inl, inr, ◌⊎◌, List, [], ◌∷◌, length,
}
use agatha.Heap.{
  is_aligned, Walked, placed, merged, past, next_is, without_first, insert_walk, insert_chunk,
}

-- How many of the chunks an address lies in.
abbrev pub hits : (a size c : ℕ) → ℕ
hits a size c = if leb c a && ltb a (c + size) then 1 else 0

abbrev pub bin_cover : (a size : ℕ) → List ℕ → ℕ
bin_cover a size [] = 0
bin_cover a size (x ∷ xs) = hits a size x + bin_cover a size xs

abbrev pub cover : (a size : ℕ) → List (List ℕ) → ℕ
cover a size [] = 0
cover a size (xs ∷ bins) = bin_cover a size xs + cover a (size * 2) bins

pub halves : (a size c : ℕ) → hits a size c + hits a size (c + size) ≡ hits a (size * 2) c
halves a size c = ground arith

-- What the walk makes of the memory of a bin and a chunk.
abbrev pub Keeps : (a size before : ℕ) → Walked → Type 0
Keeps a size before (placed ys) = bin_cover a size ys ≡ before
Keeps a size before (merged d ys) = bin_cover a size ys + hits a (size * 2) d ≡ before

Keeps-past :
    (a size before x : ℕ) (w : Walked)
    → Keeps a size before w
    → Keeps a size (hits a size x + before) (past x w)
Keeps-past a size before x (placed ys) h = omega arith
Keeps-past a size before x (merged d ys) h = omega arith

joined : (x ys d y c : ℕ) → d ≡ c + y → x + ys + d ≡ x + (y + ys) + c
joined x ys d y c e = omega arith

reordered : (x xs c : ℕ) → x + (xs + c) ≡ x + xs + c
reordered x xs c = omega arith

add_comm : (x y : ℕ) → x + y ≡ y + x
add_comm x y = omega arith

-- The chunk is merged with the one behind `x`.
Keeps-next :
    (a size c x : ℕ) (xs : List ℕ)
    → next_is (c + size) xs ≡ true
    → bin_cover a size (x ∷ without_first xs) + hits a (size * 2) c
      ≡ bin_cover a size (x ∷ xs) + hits a size c
Keeps-next a size c x [] e = absurd (true-ne-false (sym e))
Keeps-next a size c x (y ∷ ys) e =
    let same : c + size ≡ y = (==_iff (c + size) y).0 e in
    let two = halves a size c in
    let at : hits a size (c + size) ≡ hits a size y = ap (hits a size) same in
    joined (hits a size x) (bin_cover a size ys) (hits a (size * 2) c) (hits a size y)
      (hits a size c) (sym two ∙ ap (λ n. hits a size c + n) at)

Keeps-if :
    (a size before : ℕ) (b : Bool) (x y : Walked)
    → (b ≡ true → Keeps a size before x)
    → Keeps a size before y
    → Keeps a size before (if b then x else y)
Keeps-if a size before true x y h k = h refl
Keeps-if a size before false x y h k = k

-- The chunk is merged with `x` in front of it.
Keeps-before :
    (a size c x : ℕ) (xs : List ℕ)
    → x + size ≡ c
    → bin_cover a size xs + hits a (size * 2) x ≡ bin_cover a size (x ∷ xs) + hits a size c
Keeps-before a size c x xs e =
    let two : hits a size x + hits a size c ≡ hits a (size * 2) x =
      ap (λ n. hits a size x + hits a size n) (sym e) ∙ halves a size x in
    behind (hits a size x) (bin_cover a size xs) (hits a (size * 2) x) (hits a size c) two
  where
    behind : (x xs d c : ℕ) → x + c ≡ d → xs + d ≡ x + xs + c
    behind x xs d c e = omega arith

and-right : (p q r : Bool) → (p && q && r) ≡ true → r ≡ true
and-right p q r h = ground arith

insert_walk-Keeps :
    (a size : ℕ) (merges : Bool) (c : ℕ) (xs : List ℕ)
    → Keeps a size (bin_cover a size xs + hits a size c) (insert_walk merges c size xs)
unfolding insert_walk
insert_walk-Keeps a size merges c [] = omega arith
insert_walk-Keeps a size merges c (x ∷ xs) =
    let all = bin_cover a size (x ∷ xs) + hits a size c in
    let p = is_aligned c (size * 2) in
    let later = past x (insert_walk merges c size xs) in
    let front = if ltb c x then placed (c ∷ x ∷ xs) else later in
    let before = if merges && not p && x + size == c then merged x xs else front in
    Keeps-if a size all (merges && p && next_is (c + size) xs) (merged c (x ∷ without_first xs))
      before (λ e. Keeps-next a size c x xs (and-right merges p (next_is (c + size) xs) e))
      (Keeps-if a size all (merges && not p && x + size == c) (merged x xs) front
        (λ e.
          Keeps-before a size c x xs
            ((==_iff (x + size) c).0 (and-right merges (not p) (x + size == c) e)))
        (Keeps-if a size all (ltb c x) (placed (c ∷ x ∷ xs)) later
          (λ _. add_comm (hits a size c) (bin_cover a size (x ∷ xs)))
          (subst (λ n. Keeps a size n later)
            (reordered (hits a size x) (bin_cover a size xs) (hits a size c))
            (Keeps-past a size (bin_cover a size xs + hits a size c) x
              (insert_walk merges c size xs) (insert_walk-Keeps a size merges c xs)))))

pub walked_cases :
    (w : Walked) → ((ys : List ℕ) × (w ≡ placed ys)) ⊎ ((d : ℕ) × (ys : List ℕ) × (w ≡ merged d ys))
walked_cases (placed ys) = inl (ys, refl)
walked_cases (merged d ys) = inr (d, ys, refl)

-- The last bin does not merge.
IsPlaced : Walked → Type 0
IsPlaced (placed ys) = Unit
IsPlaced (merged d ys) = ⊥

IsPlaced-past : (x : ℕ) (w : Walked) → IsPlaced w → IsPlaced (past x w)
unfolding IsPlaced
IsPlaced-past x (placed ys) h = tt
IsPlaced-past x (merged d ys) h = h

insert_walk-IsPlaced : (c size : ℕ) (xs : List ℕ) → IsPlaced (insert_walk false c size xs)
unfolding IsPlaced insert_walk
insert_walk-IsPlaced c size [] = tt
insert_walk-IsPlaced c size (x ∷ xs) = elim (Bool-cases (ltb c x)) [
  | inl e ↦ rw (e, insert_walk, IsPlaced) tt
  | inr e ↦ rw e (IsPlaced-past x (insert_walk false c size xs) (insert_walk-IsPlaced c size xs))
]

moved : (ys d rest before c : ℕ) → ys + d ≡ before + c → ys + (rest + d) ≡ before + rest + c
moved ys d rest before c e = omega arith

beside : (ys rest before c : ℕ) → ys ≡ before + c → ys + rest ≡ before + rest + c
beside ys rest before c e = omega arith

-- An address is covered by what is inserted once more.
pub insert_chunk-cover :
    (a size : ℕ) (bins : List (List ℕ)) (c : ℕ)
    → 0 < length bins
    → cover a size (insert_chunk size bins c) ≡ cover a size bins + hits a size c
unfolding insert_chunk
insert_chunk-cover a size [] c h = absurd (omega arith)
insert_chunk-cover a size (xs ∷ []) c h =
    let k = insert_walk-Keeps a size false c xs in
    elim (walked_cases (insert_walk false c size xs)) [
      | inl (ys, e) ↦
          rw (e, insert_chunk)
            (beside (bin_cover a size ys) 0 (bin_cover a size xs) (hits a size c) (rw e at k))
      | inr (d, ys, e) ↦
          absurd (unfold IsPlaced in (subst IsPlaced e (insert_walk-IsPlaced c size xs)))
    ]
insert_chunk-cover a size (xs ∷ (ys ∷ bins)) c h =
    let k = insert_walk-Keeps a size true c xs in
    elim (walked_cases (insert_walk true c size xs)) [
      | inl (zs, e) ↦
          rw (e, insert_chunk)
            (beside (bin_cover a size zs) (cover a (size * 2) (ys ∷ bins)) (bin_cover a size xs)
              (hits a size c) (rw e at k))
      | inr (d, zs, e) ↦
          rw (e, insert_chunk)
            (ap (λ n. bin_cover a size zs + n)
                (insert_chunk-cover a (size * 2) (ys ∷ bins) d (omega arith))
              ∙ moved (bin_cover a size zs) (hits a (size * 2) d) (cover a (size * 2) (ys ∷ bins))
                  (bin_cover a size xs) (hits a size c) (rw e at k))
    ]
