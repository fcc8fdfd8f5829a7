-- ===== src/Virtq/Descs.antt =====
-- The free descriptors of arm/drivers/virtio/virtq.c, which are linked by their `next`.
use agatha.Prelude.{
  ℕ, zero, suc, ◌+◌, ◌-◌, ◌<◌, ◌≤◌, ◌≡◌, ◌≢◌, refl, sym, ap, ◌∙◌, subst, arith, Bool-cases, ==_iff,
  inl, inr, true, false, ltb, ◌==◌, Option, none, some, List, [], ◌∷◌, All, update, update-same,
  update-other,
}
use agatha.Virtq.{Virtq, no_desc, get_desc, free_desc, link_descs, all_links, new_queue, init}

-- From `c` on there are these descriptors.
abbrev pub Linked : (next_of : ℕ → ℕ) → (c : ℕ) → List ℕ → Type 0
Linked next_of c [] = c ≡ no_desc
Linked next_of c (x ∷ xs) = (c ≡ x) × (x < no_desc) × Linked next_of (next_of x) xs

-- The free descriptors of a queue.
abbrev pub FreeDescs : Virtq → List ℕ → Type 0
FreeDescs q xs = Linked q.next_of q.desc_free_index xs

Linked-update :
    (next_of : ℕ → ℕ) (c i v : ℕ) (xs : List ℕ)
    → All (λ x. x ≢ i) xs
    → Linked next_of c xs
    → Linked (update next_of i v) c xs
Linked-update next_of c i v [] out h = h
Linked-update next_of c i v (x ∷ xs) out (at, small, later) = (
  at,
  small,
  subst (λ y. Linked (update next_of i v) y xs) (sym (update-other next_of i x v out.0))
      (Linked-update next_of (next_of x) i v xs out.1 later),
)

-- What is left of the free descriptors.
abbrev pub Gets : Virtq → List ℕ → Option (ℕ × Virtq) → Type 0
Gets q [] r = r ≡ none
Gets q (x ∷ xs) r = (q' : Virtq) × (r ≡ some (x, q')) × FreeDescs q' xs

get_desc-Gets : (q : Virtq) (xs : List ℕ) → FreeDescs q xs → Gets q xs (get_desc q)
unfolding get_desc
get_desc-Gets q [] h =
    let e : (q.desc_free_index == no_desc) ≡ true = ground arith in rw (e, get_desc) refl
get_desc-Gets q (x ∷ xs) (at, small, later) =
    let e : (q.desc_free_index == no_desc) ≡ false = ground arith in
    (
      record (q) { desc_free_index = q.next_of x },
      rw (e, get_desc) (ap (λ c. some (c, record (q) { desc_free_index = q.next_of c })) at),
      later,
    )

free_desc-FreeDescs :
    (q : Virtq) (xs : List ℕ) (i : ℕ)
    → FreeDescs q xs
    → All (λ x. x ≢ i) xs
    → i < no_desc
    → FreeDescs (free_desc q i) (i ∷ xs)
unfolding free_desc
free_desc-FreeDescs q xs i h out small = (
  refl,
  small,
  subst (λ y. Linked (update q.next_of i q.desc_free_index) y xs)
      (sym (update-same q.next_of i q.desc_free_index))
      (Linked-update q.next_of q.desc_free_index i q.desc_free_index xs out h),
)

-- With the free descriptors linked, virtq_get_desc gives the first and leaves the others linked, or
-- nil exactly where there is none; and virtq_free_desc of a descriptor that is not among them puts it
-- first.
pub get_desc-FreeDescs :
    (q : Virtq) (xs : List ℕ)
    → FreeDescs q xs
    → Gets q xs (get_desc q)
      × ((i : ℕ) → All (λ x. x ≢ i) xs → i < no_desc → FreeDescs (free_desc q i) (i ∷ xs))
get_desc-FreeDescs q xs h =
    (get_desc-Gets q xs h, λ i out small. free_desc-FreeDescs q xs i h out small)

-- `n` numbers from `i` on.
abbrev pub upwards : (i n : ℕ) → List ℕ
upwards i zero = []
upwards i (suc n) = i ∷ upwards (i + 1) n

link_descs-lt : (n i : ℕ) (next_of : ℕ → ℕ) (j : ℕ) → j < i → link_descs n i next_of j ≡ next_of j
unfolding link_descs
link_descs-lt zero i next_of j lt = refl
link_descs-lt (suc n) i next_of j lt =
    link_descs-lt n (i + 1) (update next_of i (i + 1)) j (omega arith)
    ∙ update-other next_of i j (i + 1) (omega arith)

link_descs-next :
    (n i : ℕ) (next_of : ℕ → ℕ) (j : ℕ) → i ≤ j → j < i + n → link_descs n i next_of j ≡ j + 1
unfolding link_descs
link_descs-next zero i next_of j le lt = absurd (omega arith)
link_descs-next (suc n) i next_of j le lt = elim (Bool-cases (j == i)) [
  | inr e ↦
      let apart : j ≢ i = ground arith in
      link_descs-next n (i + 1) (update next_of i (i + 1)) j (omega arith) (omega arith)
  | inl e ↦
      let same : i ≡ j = sym ((==_iff j i).0 e) in
      subst (λ k. link_descs n (i + 1) (update next_of i (i + 1)) k ≡ k + 1) same
        (link_descs-lt n (i + 1) (update next_of i (i + 1)) i (omega arith)
          ∙ update-same next_of i (i + 1))
]

Linked-upwards :
    (n i : ℕ) (next_of : ℕ → ℕ)
    → i + n < no_desc
    → ((j : ℕ) → i ≤ j → j < i + n → next_of j ≡ j + 1)
    → next_of (i + n) ≡ no_desc
    → Linked next_of i (upwards i (suc n))
Linked-upwards zero i next_of small steps last =
    (refl, omega arith, subst (λ k. next_of k ≡ no_desc) (omega arith) last)
Linked-upwards (suc n) i next_of small steps last = (
  refl,
  omega arith,
  subst (λ k. Linked next_of k (upwards (i + 1) (suc n)))
      (sym (steps i (omega arith) (omega arith)))
      (Linked-upwards n (i + 1) next_of (omega arith)
        (λ j le lt. steps j (omega arith) (omega arith))
        (subst (λ k. next_of k ≡ no_desc) (omega arith) last)),
)

Linked-all_links : (n : ℕ) → n < no_desc → Linked (all_links n) 0 (upwards 0 (suc n))
Linked-all_links n small =
    Linked-upwards n 0 (all_links n) (omega arith)
      (λ j le lt.
        update-other (link_descs n 0 (λ i. 0)) n j no_desc (omega arith)
        ∙ link_descs-next n 0 (λ i. 0) j le lt)
      (subst (λ k. all_links n k ≡ no_desc) (omega arith)
        (update-same (link_descs n 0 (λ i. 0)) n no_desc))

pub init-FreeDescs :
    (max n : ℕ)
    → suc n ≤ max
    → n < no_desc
    → (q : Virtq) × (init max (suc n) ≡ some q) × FreeDescs q (upwards 0 (suc n))
unfolding init
init-FreeDescs max n room small =
    let fits : ltb max (suc n) ≡ false = ground arith in
    let last : n ≡ suc n - 1 = omega arith in
    (
      new_queue (suc n),
      rw (fits, init) refl,
      subst (λ k. Linked (all_links k) 0 (upwards 0 (suc n))) last (Linked-all_links n small),
    )
