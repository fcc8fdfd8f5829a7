-- ===== src/Ranges/Finds.antt =====
-- When a search of the free memory finds a range, and a range that is too short.
use agatha.Prelude.{
  ℕ, suc, ◌+◌, ◌-◌, ◌^◌, ◌%◌, ◌≤◌, ◌<◌, ◌≡◌, refl, subst, Bool, true, false, ◌&&◌, ltb, leb,
  if◌then◌else◌, arith, Bool-cases, inl, inr, List, [], ◌∷◌, ◌++◌, All,
}
use agatha.Ranges.{
  Range, Taken, got, after, behind, range_end, take_front, take_at, align_up, addr_range_get,
  addr_range_get_any,
}
use agatha.Ranges.Covers.{hits, count, Splits, InMemory, addr_range_get-Splits}

abbrev IsGot : Taken → Type 0
IsGot t = (m : Range) × (nodes : ℕ) × (rest : List Range) × (t ≡ got m nodes rest)

IsGot-after : (f : Range) (t : Taken) → IsGot t → IsGot (after f t)
IsGot-after f t (m, nodes, rest, e) = (m, nodes, f ∷ rest, rw e refl)

front-IsGot :
    (nodes : ℕ) (f : Range) (len : ℕ) (fs : List Range) → IsGot (take_front (suc nodes) f len fs)
unfolding take_front
front-IsGot nodes f len fs = elim (Bool-cases (ltb len f.len)) [
  | inl e ↦ rw e (_, _, _, refl)
  | inr e ↦ rw e (_, _, _, refl)
]

at-IsGot :
    (nodes : ℕ) (f : Range) (start len : ℕ) (fs : List Range)
    → IsGot (take_at (suc (suc nodes)) f start len fs)
unfolding take_at
at-IsGot nodes f start len fs = elim (Bool-cases (ltb f.start start)) [
  | inl e ↦ rw e (IsGot-after _ _ (front-IsGot nodes _ len fs))
  | inr e ↦ rw e (front-IsGot (suc nodes) f len fs)
]

-- Whether a range holds an address, as the code tests it.
abbrev pub holds : Range → ℕ → Bool
holds f start = leb f.start start && ltb start (range_end f)

holds_start :
    (s l start len : ℕ)
    → s ≤ start
    → start + len ≤ s + l
    → s + l < 2 ^ 32
    → 0 < len
    → ((leb s start && ltb start ((s + l) % 2 ^ 32)) ≡ true)
      × (ltb ((s + l) % 2 ^ 32) ((start + len) % 2 ^ 32) ≡ false)
holds_start s l start len h k small pos = (ground arith, ground arith)

addr_range_get-IsGot :
    (nodes : ℕ) (xs : List Range) (r : Range) (ys : List Range) (start len : ℕ)
    → All (λ x. holds x start ≡ false) xs
    → r.start ≤ start
    → start + len ≤ r.start + r.len
    → r.start + r.len < 2 ^ 32
    → 0 < len
    → IsGot (addr_range_get (suc (suc nodes)) (xs ++ (r ∷ ys)) start len)
unfolding addr_range_get
addr_range_get-IsGot nodes [] r ys start len h low high small pos =
    let e = holds_start r.start r.len start len low high small pos in
    rw (e.0, e.1) (at-IsGot nodes r start len ys)
addr_range_get-IsGot nodes (x ∷ xs) r ys start len h low high small pos = rw h.0 (
    IsGot-after x (addr_range_get (suc (suc nodes)) (xs ++ (r ∷ ys)) start len)
      (addr_range_get-IsGot nodes xs r ys start len h.1 low high small pos))

-- The range that is asked for is taken, with nothing lost or doubled.
abbrev pub Gets : (start len : ℕ) → List Range → Taken → Type 0
Gets start len fs t =
    (m : Range) × (nodes : ℕ) × (rest : List Range) × (t ≡ got m nodes rest)
    × (m.start ≡ start)
    × (m.len ≡ len)
    × ((a : ℕ) → hits a m + count a rest ≡ count a fs)

-- With two nodes or more left in the pool and no free range that reaches past 2 ^ 32, for a range that
-- is not empty, that lies in a free range that ends below 2 ^ 32, and whose start none before that one
-- holds by the test of the code, addr_range_get returns exactly that range, and every address lies in
-- as many ranges of the new list and the taken one together as of the old list.
pub addr_range_get-Gets :
    (nodes : ℕ) (xs : List Range) (r : Range) (ys : List Range) (start len : ℕ)
    → All InMemory (xs ++ (r ∷ ys))
    → All (λ x. holds x start ≡ false) xs
    → r.start ≤ start
    → start + len ≤ r.start + r.len
    → r.start + r.len < 2 ^ 32
    → 0 < len
    → Gets start len (xs ++ (r ∷ ys)) (addr_range_get (suc (suc nodes)) (xs ++ (r ∷ ys)) start len)
addr_range_get-Gets nodes xs r ys start len in_memory h low high small pos =
    let fs = xs ++ (r ∷ ys) in
    let (m, n, rest, e) = addr_range_get-IsGot nodes xs r ys start len h low high small pos in
    let (at, length_is, counts) =
      subst (Splits (suc (suc nodes)) start len fs) e
        (addr_range_get-Splits (suc (suc nodes)) fs start len in_memory (omega arith)) in
    (m, n, rest, e, at, length_is, counts)

-- Where the first free range is not aligned and does not reach past the end of memory, and what is left
-- of it behind the gap is shorter than the length asked for but the range and the gap together are
-- longer, addr_range_get_any returns a range that is too short.
addr_range_get_any-short :
    (nodes : ℕ) (f : Range) (fs : List Range) (len align : ℕ)
    → f.start < align_up f.start align
    → align_up f.start align ≤ f.start + f.len
    → f.start + f.len - align_up f.start align < len
    → len < align_up f.start align - f.start + f.len
    → align_up f.start align + f.len < 2 ^ 32
    → (m : Range) × (n : ℕ) × (rest : List Range) × (addr_range_get_any
          (suc (suc nodes))
          (f ∷ fs)
          len
          align
        ≡ got m n rest)
      × (m.len < len)
unfolding addr_range_get_any take_at take_front
addr_range_get_any-short nodes f fs len align gap in_f short test small =
    short_at (align_up f.start align) gap in_f short test small
  where
    short_at :
        (a : ℕ)
        → f.start < a
        → a ≤ f.start + f.len
        → f.start + f.len - a < len
        → len < a - f.start + f.len
        → a + f.len < 2 ^ 32
        → (m : Range) × (n : ℕ) × (rest : List Range) × ((if ltb len
                ((a + (2 ^ 32 - f.start) + f.len) % 2 ^ 32)
              then take_at (suc (suc nodes)) f a len fs
              else after f (addr_range_get_any (suc (suc nodes)) fs len align))
            ≡ got m n rest)
          × (m.len < len)
    short_at a gap in_f short test small =
        let e : ltb len ((a + (2 ^ 32 - f.start) + f.len) % 2 ^ 32) ≡ true = ground arith in
        let e' : ltb f.start a ≡ true = ground arith in
        let b : behind f.len (a - f.start) ≡ f.start + f.len - a = ground arith in
        let k : ltb len (behind f.len (a - f.start)) ≡ false = rw b (ground arith) in
        (
          record { start = a; len = behind f.len (a - f.start) },
          suc nodes,
          record { start = f.start; len = a - f.start } ∷ fs,
          rw (e, e', k) refl,
          rw b (omega arith),
        )
