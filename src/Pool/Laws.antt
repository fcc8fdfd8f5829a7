-- ===== src/Pool/Laws.antt =====
-- The free list of a pool through `pool_load`, `pool_alloc` and `pool_free`.
use agatha.Prelude.{
  ℕ, zero, suc, ◌+◌, ◌-◌, ◌/◌, ◌≤◌, ◌<◌, ◌≡◌, ◌≢◌, refl, sym, ◌∙◌, subst, Bool, true, false, ltb,
  ◌==◌, arith, inl, inr, ◌⊎◌, update, update-same, update-other, some, List, [], ◌∷◌, length, All,
  All-map,
}
use agatha.Kernel.Links.Chain.{NotIn, Distinct}
use agatha.Pool.{Pool, obj_head, frame_head, push, load, pool_load, pool_alloc, pool_free}

-- The list from `o` on holds `xs`.
abbrev pub Linked : (ℕ → ℕ) → ℕ → List ℕ → Type 0
Linked next o [] = o ≡ 0
Linked next o (x ∷ xs) = (o ≡ x) × (x ≢ 0) × Linked next (next x) xs

-- The free objects are `xs`: linked, all different, not in use, and counted.
pub record Free (p : Pool) (xs : List ℕ) : Type 0 where
  pub linked : Linked p.next p.objs xs
  pub distinct : Distinct xs
  pub unused : All (λ x. p.in_use x ≡ false) xs
  pub count : p.n_free ≡ length xs

Linked-update :
    (next : ℕ → ℕ) (a v o : ℕ) (xs : List ℕ)
    → NotIn a xs
    → Linked next o xs
    → Linked (update next a v) o xs
Linked-update next a v o [] h l = l
Linked-update next a v o (x ∷ xs) h l = (
  l.0,
  l.1,
  subst (λ k. Linked (update next a v) k xs) (sym (update-other next a x v h.0))
      (Linked-update next a v (next x) xs h.1 l.2),
)

unused-update :
    (f : ℕ → Bool) (a : ℕ) (b : Bool) (xs : List ℕ)
    → NotIn a xs
    → All (λ x. f x ≡ false) xs
    → All (λ x. update f a b x ≡ false) xs
unused-update f a b [] h u = tt
unused-update f a b (x ∷ xs) h u = (update-other f a x b h.0 ∙ u.0, unused-update f a b xs h.1 u.1)

-- The first object of a list that is not empty.
pool_alloc-some :
    (p : Pool) (x : ℕ)
    → p.objs ≡ x
    → x ≢ 0
    → pool_alloc p ≡ (
      record p { objs = p.next x; in_use = update p.in_use x true; n_free = p.n_free - 1 },
      x + obj_head,
    )
unfolding pool_alloc
pool_alloc-some p x e ne = rw (e, nonzero x ne) refl
  where
    nonzero : (x : ℕ) → x ≢ 0 → (x == 0) ≡ false
    nonzero x ne = ground arith

-- Where the free list is not empty, pool_alloc returns the body of its first object and marks that one
-- only as in use; the rest of the list stays linked, without doubles, unmarked and counted.
pool_alloc-Free :
    (p : Pool) (x : ℕ) (xs : List ℕ)
    → Free p (x ∷ xs)
    → ((pool_alloc p).1 ≡ x + obj_head)
      × Free (pool_alloc p).0 xs
      × ((pool_alloc p).0.in_use x ≡ true)
      × ((y : ℕ) → y ≢ x → (pool_alloc p).0.in_use y ≡ p.in_use y)
pool_alloc-Free p x xs f =
    let count = f.count in
    let left : p.n_free - 1 ≡ length xs = omega (arith, count) in
    rw (pool_alloc-some p x f.linked.0 f.linked.1) (
      refl,
      record {
        linked = f.linked.2;
        distinct = f.distinct.1;
        unused = unused-update p.in_use x true xs f.distinct.0 f.unused.1;
        count = left;
      },
      update-same p.in_use x true,
      λ y h. update-other p.in_use x y true h,
    )

-- What is true of a free list but for its count.
abbrev Chained : Pool → List ℕ → Type 0
Chained p xs = Linked p.next p.objs xs × Distinct xs × All (λ x. p.in_use x ≡ false) xs

push-Chained :
    (p : Pool) (o : ℕ) (xs : List ℕ)
    → o ≢ 0
    → NotIn o xs
    → Chained p xs
    → Chained (push p o) (o ∷ xs)
unfolding push
push-Chained p o xs ne new c = (
  (
    refl,
    ne,
    subst (λ k. Linked (update p.next o p.objs) k xs) (sym (update-same p.next o p.objs))
        (Linked-update p.next o p.objs p.objs xs new c.0),
  ),
  (new, c.1),
  (update-same p.in_use o false, unused-update p.in_use o false xs new c.2),
)

-- pool_free of the body of an object that is not nil and not on the free list puts it first in the
-- list, which stays linked, without doubles, unmarked and counted.
pool_free-Free :
    (p : Pool) (o : ℕ) (xs : List ℕ)
    → Free p xs
    → o ≢ 0
    → NotIn o xs
    → Free (pool_free p (o + obj_head)) (o ∷ xs)
unfolding pool_free
pool_free-Free p o xs f ne new =
    let c = push-Chained p o xs ne new (f.linked, f.distinct, f.unused) in
    let same : o ≡ o + obj_head - obj_head = omega arith in
    subst (λ k. Free (record (push p k) { n_free = (push p k).n_free + 1 }) (o ∷ xs)) same
      (record {
        linked = c.0;
        distinct = c.1;
        unused = c.2;
        count = unfold push in rw f.count (omega arith);
      })

-- The objects that are laid out from `o` on, the last one first, before the ones of `xs`; and where
-- they end.
abbrev pub laid_out : (n size o : ℕ) → List ℕ → List ℕ
laid_out zero size o xs = xs
laid_out (suc n) size o xs = laid_out n size (o + size) (o ∷ xs)

abbrev pub end_of : (n size o : ℕ) → ℕ
end_of zero size o = o
end_of (suc n) size o = end_of n size (o + size)

le-end_of : (n size o : ℕ) → o ≤ end_of n size o
le-end_of zero size o = omega arith
le-end_of (suc n) size o = let h = le-end_of n size (o + size) in omega (arith, h)

-- No object of `xs` lies between two addresses.
abbrev pub Outside : (o e : ℕ) → List ℕ → Type 0
Outside o e xs = All (λ x. (x < o) ⊎ (e ≤ x)) xs

Outside-step :
    (o size e : ℕ) (xs : List ℕ)
    → 0 < size
    → o + size ≤ e
    → Outside o e xs
    → Outside (o + size) e (o ∷ xs) × NotIn o xs
Outside-step o size e xs pos le h = (
  (
    inl (omega arith),
    All-map (λ x. (x < o) ⊎ (e ≤ x)) (λ x. (x < o + size) ⊎ (e ≤ x)) xs
        (λ x d. elim d [ inl l ↦ inl (omega arith) | inr r ↦ inr r ]) h,
  ),
  All-map (λ x. (x < o) ⊎ (e ≤ x)) (λ x. x ≢ o) xs
      (λ x d. elim d [ inl l ↦ λ q. absurd (omega arith) | inr r ↦ λ q. absurd (omega arith) ]) h,
)

load-Chained :
    (n : ℕ) (p : Pool) (o : ℕ) (xs : List ℕ)
    → 0 < o
    → 0 < p.obj_size
    → Outside o (end_of n p.obj_size o) xs
    → Chained p xs
    → Chained (load n p o) (laid_out n p.obj_size o xs)
unfolding load push
load-Chained zero p o xs pos size h c = c
load-Chained (suc n) p o xs pos size h c =
    let (h', new) =
      Outside-step o p.obj_size (end_of n p.obj_size (o + p.obj_size)) xs size
        (le-end_of n p.obj_size (o + p.obj_size)) h in
    load-Chained n (push p o) (o + p.obj_size) (o ∷ xs) (omega arith) size h'
      (push-Chained p o xs (omega arith) new c)

length-laid_out : (n size o : ℕ) (xs : List ℕ) → length (laid_out n size o xs) ≡ length xs + n
length-laid_out zero size o xs = omega arith
length-laid_out (suc n) size o xs =
    let h = length-laid_out n size (o + size) (o ∷ xs) in omega (arith, h)

load-n_free : (n : ℕ) (p : Pool) (o : ℕ) → (load n p o).n_free ≡ p.n_free
unfolding load push
load-n_free zero p o = refl
load-n_free (suc n) p o = load-n_free n (push p o) (o + p.obj_size)

-- How many objects a frame has room for.
abbrev pub room : Pool → ℕ → ℕ
room p len = (len - frame_head) / p.obj_size

-- Loading a frame that has room for an object, and in which none of the free objects lies, succeeds
-- and adds all the objects of the frame to the free list, which stays linked, without doubles,
-- unmarked and counted.
pool_load-Free :
    (p : Pool) (a len : ℕ) (xs : List ℕ)
    → Free p xs
    → 0 < p.obj_size
    → p.obj_size + frame_head ≤ len
    → Outside (a + frame_head) (end_of (room p len) p.obj_size (a + frame_head)) xs
    → (q : Pool) × (pool_load p a len ≡ some q)
      × Free q (laid_out (room p len) p.obj_size (a + frame_head) xs)
unfolding pool_load
pool_load-Free p a len xs f size fits out =
    let n = room p len in
    let p' = load n p (a + frame_head) in
    let c =
      load-Chained n p (a + frame_head) xs (omega arith) size out
        (f.linked, f.distinct, f.unused) in
    let enough : ltb len (p.obj_size + frame_head) ≡ false = ground arith in
    let count : p'.n_free + n ≡ length (laid_out n p.obj_size (a + frame_head) xs) =
      rw
        (
          load-n_free n p (a + frame_head),
          f.count,
          length-laid_out n p.obj_size (a + frame_head) xs,
        )
        refl in
    (
      record p' { n_free = p'.n_free + n; frames = a ∷ p'.frames },
      rw enough refl,
      record { linked = c.0; distinct = c.1; unused = c.2; count = count },
    )
