-- ===== src/Virtq/Rings.antt =====
-- The rings of arm/drivers/virtio/virtq.c.
use agatha.Prelude.{
  ℕ, zero, suc, ◌+◌, ◌^◌, ◌%◌, ◌<◌, ◌≤◌, ◌≡◌, refl, ◌∙◌, subst, arith, true, false, ◌==◌, Option,
  none, some, List, [], ◌∷◌,
}
use agatha.Virtq.{Virtq, virtq_pop}

-- The used items that a process takes, and the queue after that.
abbrev pub pops : (n : ℕ) → Virtq → Option (List ℕ × Virtq)
pops zero q = some ([], q)
pops (suc n) q = elim (virtq_pop q) [
  | none ↦ none
  | some r ↦ elim (pops n r.1) [ none ↦ none | some s ↦ some (r.0 ∷ s.0, s.1) ]
]

-- The items of a ring, `n` of them from number `i` on.
abbrev pub items : (rings : ℕ → ℕ) → (size i n : ℕ) → List ℕ
items rings size i zero = []
items rings size i (suc n) = rings (i % size) ∷ items rings size (i + 1) n

-- A queue of which the process has taken `n` more items.
abbrev pub taken : Virtq → (n : ℕ) → Virtq
taken q zero = q
taken q (suc n) =
    taken (record (q) { last_seen_used = q.last_seen_used + 1; acknowledged = true }) n

pops-taken :
    (n : ℕ) (q : Virtq)
    → q.last_seen_used + n ≡ q.used_index
    → q.used_index < 2 ^ 16
    → pops n q ≡ some (items q.used_rings q.size q.last_seen_used n, taken q n)
unfolding virtq_pop
pops-taken zero q e small = refl
pops-taken (suc n) q e small =
    let more : (q.last_seen_used == q.used_index) ≡ false = ground arith in
    let next : (q.last_seen_used + 1) % 2 ^ 32 ≡ q.last_seen_used + 1 = omega arith in
    rw (more, pops, virtq_pop)
      (rw next (
        rw
          (pops-taken n (record (q) { last_seen_used = q.last_seen_used + 1; acknowledged = true })
            (omega arith) small)
          refl))

pop-taken : (n : ℕ) (q : Virtq) → q.last_seen_used + n ≡ q.used_index → virtq_pop (taken q n) ≡ none
unfolding virtq_pop
pop-taken zero q e =
    let none_left : (q.last_seen_used == q.used_index) ≡ true = ground arith in
    rw (none_left, virtq_pop) refl
pop-taken (suc n) q e =
    pop-taken n (record (q) { last_seen_used = q.last_seen_used + 1; acknowledged = true })
      (omega arith)

-- While the index of the used items is below 2 ^ 16 and the process has taken n items less than that,
-- virtq_pop gives exactly the n items that it has not taken, in the order of the ring, and then nil.
pub pops-items :
    (n : ℕ) (q : Virtq)
    → q.last_seen_used + n ≡ q.used_index
    → q.used_index < 2 ^ 16
    → (q' : Virtq) × (pops n q ≡ some (items q.used_rings q.size q.last_seen_used n, q'))
      × (virtq_pop q' ≡ none)
pops-items n q e small = (taken q n, pops-taken n q e small, pop-taken n q e)

pops-past :
    (n : ℕ) (q : Virtq)
    → 2 ^ 16 ≤ q.last_seen_used
    → q.last_seen_used + n < 2 ^ 32
    → q.used_index < 2 ^ 16
    → pops n q ≡ some (items q.used_rings q.size q.last_seen_used n, taken q n)
unfolding virtq_pop
pops-past zero q past small index = refl
pops-past (suc n) q past small index =
    let more : (q.last_seen_used == q.used_index) ≡ false = ground arith in
    let next : (q.last_seen_used + 1) % 2 ^ 32 ≡ q.last_seen_used + 1 = omega arith in
    rw (more, pops, virtq_pop)
      (rw next (
        rw
          (pops-past n (record (q) { last_seen_used = q.last_seen_used + 1; acknowledged = true })
            (omega arith) (omega arith) index)
          refl))

taken-used_index : (n : ℕ) (q : Virtq) → (taken q n).used_index ≡ q.used_index
taken-used_index zero q = refl
taken-used_index (suc n) q =
    taken-used_index n (record (q) { last_seen_used = q.last_seen_used + 1; acknowledged = true })

-- While the counter last_seen_used is 2 ^ 16 or more and stays below 2 ^ 32, and the process has taken
-- all that the device has used, so that the index of the used items is the counter modulo 2 ^ 16,
-- virtq_pop gives n more items, for every n that the counter has room for: those of the ring from the
-- counter on, though the device has used none since.
pub pops-stale :
    (k n : ℕ) (q : Virtq)
    → q.last_seen_used ≡ k
    → q.used_index ≡ k % 2 ^ 16
    → 2 ^ 16 ≤ k
    → k + n < 2 ^ 32
    → (q' : Virtq) × (pops n q ≡ some (items q.used_rings q.size k n, q'))
      × (q'.used_index ≡ k % 2 ^ 16)
pops-stale k n q seen index past small = (
  taken q n,
  subst (λ i. pops n q ≡ some (items q.used_rings q.size i n, taken q n)) seen
      (pops-past n q (omega arith) (omega arith) (omega arith)),
  taken-used_index n q ∙ index,
)
