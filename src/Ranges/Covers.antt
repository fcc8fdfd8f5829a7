-- ===== src/Ranges/Covers.antt =====
-- Taking a range splits the free memory in the range and the rest.
use agatha.Prelude.{
  ℕ, zero, suc, ◌+◌, ◌-◌, ◌^◌, ◌%◌, All, ◌≤◌, ◌<◌, ◌≡◌, ◌≢◌, refl, ap, subst, true, false, ◌&&◌,
  ltb, leb, if◌then◌else◌, arith, Bool-cases, inl, inr, List, [], ◌∷◌,
}
use agatha.Ranges.{
  Range, Taken, got, nothing, fault, after, behind, range_end, take_front, take_at, addr_range_get,
}

-- How many of the ranges an address lies in: with one at most, they do not overlap.
abbrev pub hits : ℕ → Range → ℕ
hits a r = if leb r.start a && ltb a (r.start + r.len) then 1 else 0

abbrev pub count : ℕ → List Range → ℕ
count a [] = 0
count a (r ∷ rs) = hits a r + count a rs

-- Every address is as often in the range taken, which is the one asked for, and the new list as it was
-- in the old list; where nothing was taken, the list is the old one; and there is a write through nil
-- only with fewer than two nodes in the pool.
abbrev pub Splits : (nodes start len : ℕ) → List Range → Taken → Type 0
Splits n start len fs (got m nodes rest) =
    (m.start ≡ start) × (m.len ≡ len) × ((a : ℕ) → hits a m + count a rest ≡ count a fs)
Splits n start len fs (nothing nodes rest) = rest ≡ fs
Splits n start len fs fault = n < 2

-- No range reaches past the end of memory.
abbrev pub InMemory : Range → Type 0
InMemory r = r.start + r.len ≤ 2 ^ 32

module _ (n start len : ℕ) where
  Splits-after :
      (f : Range) (fs : List Range) (t : Taken)
      → Splits n start len fs t
      → Splits n start len (f ∷ fs) (after f t)
  Splits-after f fs (got m nodes rest) h = (h.0, h.1, λ a. let e = h.2 a in omega (arith, e))
  Splits-after f fs (nothing nodes rest) h = ap (λ (l : List Range). f ∷ l) h
  Splits-after f fs fault h = h

  -- A range that stays in front of what a part of the list comes to.
  Splits-low :
      (f low high : Range) (fs : List Range) (t : Taken)
      → ((a : ℕ) → hits a low + hits a high ≡ hits a f)
      → Splits n start len (high ∷ fs) t
      → ((nodes : ℕ) (rest : List Range) → t ≢ nothing nodes rest)
      → Splits n start len (f ∷ fs) (after low t)
  Splits-low f low high fs (got m nodes rest) e h some_taken =
      (h.0, h.1, λ a. let d = e a in let k = h.2 a in omega (arith, d, k))
  Splits-low f low high fs (nothing nodes rest) e h some_taken = absurd (some_taken nodes rest refl)
  Splits-low f low high fs fault e h some_taken = h

hits-split :
    (a start len k : ℕ)
    → k ≤ len
    → hits a (record { start = start; len = k })
        + hits a (record { start = start + k; len = len - k })
      ≡ hits a (record { start = start; len = len })
hits-split a start len k h = ground arith

Splits-front :
    (n nodes : ℕ) (f : Range) (len : ℕ) (fs : List Range)
    → n < nodes + 2
    → InMemory f
    → len ≤ f.len
    → Splits n f.start len (f ∷ fs) (take_front nodes f len fs)
unfolding take_front
Splits-front n zero f len fs few in_memory h = elim (Bool-cases (ltb len f.len)) [
  | inl e ↦ rw e few
  | inr e ↦ rw e (refl, same f.len e h, λ a. refl)
]
  where
    same : (l : ℕ) → ltb len l ≡ false → len ≤ l → l ≡ len
    same l e h = ground arith
Splits-front n (suc nodes) f len fs few in_memory h = elim (Bool-cases (ltb len f.len)) [
  | inl e ↦
      let next : (f.start + len) % 2 ^ 32 ≡ f.start + len = no_wrap f.len e in_memory in
      rw e (refl, refl, λ a. rw next (let d = hits-split a f.start f.len len h in omega (arith, d)))
  | inr e ↦ rw e (refl, same f.len e h, λ a. refl)
]
  where
    same : (l : ℕ) → ltb len l ≡ false → len ≤ l → l ≡ len
    same l e h = ground arith

    no_wrap :
        (l : ℕ) → ltb len l ≡ true → f.start + l ≤ 2 ^ 32 → (f.start + len) % 2 ^ 32 ≡ f.start + len
    no_wrap l e h = ground arith

front-ne_nothing :
    (nodes : ℕ) (f : Range) (len : ℕ) (fs : List Range) (n : ℕ) (rest : List Range)
    → take_front nodes f len fs ≢ nothing n rest
unfolding take_front
front-ne_nothing zero f len fs n rest e = ground arith
front-ne_nothing (suc nodes) f len fs n rest e = ground arith

high_len :
    (off len n : ℕ) → off + n ≤ len → n ≤ (if leb off len then len - off else 2 ^ 32 - (off - len))
high_len off len n h = ground arith

low_high :
    (a s l start : ℕ)
    → s ≤ start
    → start ≤ s + l
    → hits a (record { start = s; len = start - s })
        + hits a (record {
          start = start;
          len = if leb (start - s) l then l - (start - s) else 2 ^ 32 - ((start - s) - l);
        })
      ≡ hits a (record { start = s; len = l })
low_high a s l start h k = ground arith

start_eq : (s start : ℕ) → ltb s start ≡ false → s ≤ start → s ≡ start
start_eq s start e h = ground arith

high-InMemory :
    (f : Range) (start : ℕ)
    → f.start ≤ start
    → start ≤ f.start + f.len
    → InMemory f
    → InMemory (record { start = start; len = behind f.len (start - f.start) })
high-InMemory f start h k in_memory = ground arith

Splits-at :
    (nodes : ℕ) (f : Range) (start len : ℕ) (fs : List Range)
    → InMemory f
    → f.start ≤ start
    → start + len ≤ f.start + f.len
    → Splits nodes start len (f ∷ fs) (take_at nodes f start len fs)
unfolding take_at
Splits-at zero f start len fs in_memory h k = elim (Bool-cases (ltb f.start start)) [
  | inl e ↦ rw e refl
  | inr e ↦ rw e (
      subst (λ x. Splits zero x len (f ∷ fs) (take_front zero f len fs))
        (start_eq f.start start e h)
        (Splits-front zero zero f len fs (omega arith) in_memory (omega arith)))
]
Splits-at (suc nodes) f start len fs in_memory h k = elim (Bool-cases (ltb f.start start)) [
  | inl e ↦
      let high : Range = record { start = start; len = behind f.len (start - f.start) } in
      rw e (
        Splits-low (suc nodes) start len f (record { start = f.start; len = start - f.start }) high
          fs (take_front nodes high len fs) (λ a. low_high a f.start f.len start h (omega arith))
          (Splits-front (suc nodes) nodes high len fs (omega arith)
            (high-InMemory f start h (omega arith) in_memory)
            (high_len (start - f.start) f.len len (omega arith)))
          (front-ne_nothing nodes high len fs))
  | inr e ↦ rw e (
      subst (λ x. Splits (suc nodes) x len (f ∷ fs) (take_front (suc nodes) f len fs))
        (start_eq f.start start e h)
        (Splits-front (suc nodes) (suc nodes) f len fs (omega arith) in_memory (omega arith)))
]

-- What the tests of the code say of a range that does not reach past the end of memory.
inside :
    (s l start : ℕ)
    → s + l ≤ 2 ^ 32
    → (leb s start && ltb start ((s + l) % 2 ^ 32)) ≡ true
    → (s ≤ start) × ((s + l) % 2 ^ 32 ≡ s + l)
inside s l start in_memory h = (ground arith, ground arith)

not_less : (m n k : ℕ) → n < 2 ^ 32 → m ≡ k → ltb m (n % 2 ^ 32) ≡ false → n ≤ k
not_less m n k small e h = ground arith

-- Where no free range reaches past 2 ^ 32 and the range asked for ends below it, a range that
-- addr_range_get returns is the one that was asked for, and every address lies in as many ranges of
-- the new list and the taken one together as of the old list; where it returns nil, the list is the
-- old one; and it writes through nil only with fewer than two nodes in the pool.
pub addr_range_get-Splits :
    (nodes : ℕ) (fs : List Range) (start len : ℕ)
    → All InMemory fs
    → start + len < 2 ^ 32
    → Splits nodes start len fs (addr_range_get nodes fs start len)
unfolding addr_range_get
addr_range_get-Splits nodes [] start len in_memory small = refl
addr_range_get-Splits nodes (f ∷ fs) start len in_memory small =
    elim (Bool-cases (leb f.start start && ltb start (range_end f))) [
      | inl e ↦ elim (Bool-cases (ltb (range_end f) ((start + len) % 2 ^ 32))) [
        | inl e' ↦ rw (e, e') refl
        | inr e' ↦
            let (low, whole) = inside f.start f.len start in_memory.0 e in
            rw (e, e')
              (Splits-at nodes f start len fs in_memory.0 low
                (not_less (range_end f) (start + len) (f.start + f.len) small whole e'))
      ]
      | inr e ↦ rw e (
          Splits-after nodes start len f fs (addr_range_get nodes fs start len)
            (addr_range_get-Splits nodes fs start len in_memory.1 small))
    ]
