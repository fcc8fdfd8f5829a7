-- ===== src/Log/Adding.antt =====
-- `add_log` as an operation of a queue.
use mathlib.Core.List.{append-nil, append_assoc}
use agatha.Prelude.{
  ℕ, zero, suc, ◌+◌, ◌-◌, ◌%◌, ◌<◌, ◌≤◌, ◌≡◌, refl, sym, ap, ◌∙◌, subst, arith, ◌⊎◌, inl, inr, none,
  some, List, [], ◌∷◌, ◌++◌, length, take, drop, length-take, length-drop, take_all, drop_all,
  take-append-drop,
}
use agatha.Log.{log_size, Ring, copy_in, part_len, add_part, add_log}
use agatha.Log.Bytes.{
  ring_read, count, contents, InBuf, ring_read-add, copy_in-other, copy_in-ring_read,
  ring_read-same,
}

-- The bytes of the ring are not where the next ones go.
apart :
    (start end l i : ℕ)
    → start < log_size
    → end < log_size
    → (end + log_size - start) % log_size + l < log_size
    → end + l ≤ log_size
    → i < (end + log_size - start) % log_size
    → ((start + i) % log_size < end) ⊎ (end + l ≤ (start + i) % log_size)
apart start end l i hs he room top lt = ground arith

next_count :
    (start end l : ℕ)
    → start < log_size
    → end < log_size
    → (end + log_size - start) % log_size + l < log_size
    → ((end + l) % log_size + log_size - start) % log_size ≡ (end + log_size - start) % log_size + l
next_count start end l hs he room = omega arith

ends_at :
    (start end : ℕ)
    → start < log_size
    → end < log_size
    → (start + (end + log_size - start) % log_size) % log_size ≡ end
ends_at start end hs he = omega arith

-- One round that does not come to the start adds its part.
module _ (r : Ring) (l : ℕ) (s : List ℕ) (i : InBuf r) (some_left : l ≤ length s)
    (room : count r + l < log_size) (top : r.end + l ≤ log_size) where
  pub add_part-InBuf : InBuf (add_part r l s)
  add_part-InBuf = record { start_lt = i.start_lt; end_lt = omega arith }

  pub add_part-contents : contents (add_part r l s) ≡ contents r ++ take l s
  add_part-contents =
      let f = copy_in r.buf r.end (take l s) in
      let n = length-take l s some_left in
      ap (ring_read f r.start) (next_count r.start r.end l i.start_lt i.end_lt room)
      ∙ ring_read-add f r.start (count r) l i.start_lt
      ∙ ap (λ (x : List ℕ). x ++ ring_read f ((r.start + count r) % log_size) l)
          (ring_read-same f r.buf r.start (count r) i.start_lt (λ k k_lt.
            copy_in-other r.buf r.end (take l s) ((r.start + k) % log_size) (
              subst
                (λ x. ((r.start + k) % log_size < r.end) ⊎ (r.end + x ≤ (r.start + k) % log_size))
                (sym n) (apart r.start r.end l k i.start_lt i.end_lt room top k_lt))))
      ∙ ap (λ (x : List ℕ). contents r ++ x)
          (ap (λ x. ring_read f x l) (ends_at r.start r.end i.start_lt i.end_lt)
            ∙ ap (ring_read f r.end) (sym n)
            ∙ copy_in-ring_read r.buf r.end (take l s) (omega arith))

  pub add_part-count : count (add_part r l s) ≡ count r + l
  add_part-count = next_count r.start r.end l i.start_lt i.end_lt room

-- The three outcomes of the tests.
module _ (r : Ring) (len : ℕ) (i : InBuf r) where
  pub part_len-whole : count r + len < log_size → r.end + len ≤ log_size → part_len r len ≡ some len
  unfolding part_len
  part_len-whole room top = ground arith

  part_len-first :
      r.start ≤ r.end → log_size < r.end + len → part_len r len ≡ some (log_size - r.end)
  unfolding part_len
  part_len-first before past = ground arith

  pub part_len-none : r.end < r.start → log_size ≤ count r + len → part_len r len ≡ none
  unfolding part_len
  part_len-none around full = ground arith

pub add_log-done :
    (fuel : ℕ) (r : Ring) (s : List ℕ) → length s ≡ 0 → add_log (suc fuel) r s ≡ some r
unfolding add_log
add_log-done fuel r [] e = refl
add_log-done fuel r (x ∷ xs) e = absurd (omega arith)

pub add_log-part :
    (fuel : ℕ) (r : Ring) (s : List ℕ) (l : ℕ)
    → 0 < length s
    → part_len r (length s) ≡ some l
    → add_log (suc fuel) r s ≡ add_log fuel (add_part r l s) (drop l s)
unfolding add_log
add_log-part fuel r [] l h e = absurd (omega arith)
add_log-part fuel r (x ∷ xs) l h e = rw (e, add_log) refl

pub add_log-break :
    (fuel : ℕ) (r : Ring) (s : List ℕ)
    → part_len r (length s) ≡ none
    → add_log (suc fuel) r s ≡ some r
unfolding add_log
add_log-break fuel r [] e = refl
add_log-break fuel r (x ∷ xs) e = rw (e, add_log) refl

-- `add_log` comes back, with these bytes in the ring.
abbrev pub Adds : (fuel : ℕ) → Ring → List ℕ → List ℕ → Type 0
Adds fuel r s out = (r' : Ring) × (add_log fuel r s ≡ some r') × InBuf r' × (contents r' ≡ out)

empty_or : (n : ℕ) → (n ≡ 0) ⊎ (0 < n)
empty_or zero = inl refl
empty_or (suc n) = inr (omega arith)

pub fits_or : (a b : ℕ) → (a ≤ b) ⊎ (b < a)
fits_or a b = ground arith

nil_of : (s : List ℕ) → length s ≡ 0 → s ≡ []
nil_of [] e = refl
nil_of (x ∷ xs) e = absurd (omega arith)

-- All in one part.
pub add_whole :
    (fuel : ℕ) (r : Ring) (s : List ℕ)
    → InBuf r
    → count r + length s < log_size
    → r.end + length s ≤ log_size
    → Adds (suc (suc fuel)) r s (contents r ++ s)
add_whole fuel r s i room top = elim (empty_or (length s)) [
  | inl e ↦ (
    r,
    add_log-done (suc fuel) r s e,
    i,
    sym (append-nil (contents r)) ∙ ap (λ (x : List ℕ). contents r ++ x) (sym (nil_of s e)),
  )
  | inr h ↦
      let n = length s in
      (
        add_part r n s,
        add_log-part (suc fuel) r s n h (part_len-whole r n i room top)
            ∙ add_log-done fuel (add_part r n s) (drop n s) (ap length (drop_all s)),
        add_part-InBuf r n s i (omega arith) room top,
        add_part-contents r n s i (omega arith) room top
            ∙ ap (λ (x : List ℕ). contents r ++ x) (take_all s),
      )
]

-- A first part up to the end of the buffer, and the rest from its beginning.
module _ (fuel : ℕ) (r : Ring) (s : List ℕ) (i : InBuf r) (before : r.start ≤ r.end)
    (top : log_size < r.end + length s) where
  abbrev first : ℕ
  first = log_size - r.end

  abbrev later : List ℕ
  later = drop first s

  pub later-length : first + length later ≡ length s
  later-length = length-drop first s (omega (arith, i.end_lt))

  first_round : add_log (suc fuel) r s ≡ add_log fuel (add_part r first s) later
  first_round =
      add_log-part fuel r s first (omega (arith, i.end_lt))
        (part_len-first r (length s) i before top)

  pub add_rest : (out : List ℕ) → Adds fuel (add_part r first s) later out → Adds (suc fuel) r s out
  add_rest out (r', e, j, c) = (r', first_round ∙ e, j, c)

-- With both ends inside of the buffer, and less than its size in the ring and the line together,
-- add_log ends and the ring holds its bytes with all of the line behind them.
pub add_log-fits :
    (fuel : ℕ) (r : Ring) (s : List ℕ)
    → InBuf r
    → count r + length s < log_size
    → Adds (suc (suc (suc fuel))) r s (contents r ++ s)
add_log-fits fuel r s i room = elim (fits_or (r.end + length s) log_size) [
  | inl top ↦ add_whole (suc fuel) r s i room top
  | inr past ↦
      let f = log_size - r.end in
      let hs = i.start_lt in
      let he = i.end_lt in
      let before : r.start ≤ r.end = omega arith in
      let n = later-length (suc (suc fuel)) r s i before past in
      let c = add_part-count r f s i (omega arith) (omega arith) (omega arith) in
      let (r', e, j, same) =
        add_whole fuel (add_part r f s) (drop f s)
          (add_part-InBuf r f s i (omega arith) (omega arith) (omega arith)) (omega arith)
          (omega arith) in
      add_rest (suc (suc fuel)) r s i before past (contents r ++ s) (
        r',
        e,
        j,
        same
            ∙ ap (λ (x : List ℕ). x ++ drop f s)
                (add_part-contents r f s i (omega arith) (omega arith) (omega arith))
            ∙ append_assoc (contents r) (take f s) (drop f s)
            ∙ ap (λ (x : List ℕ). contents r ++ x) (take-append-drop f s),
      )
]
