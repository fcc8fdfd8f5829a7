-- ===== src/Kernel/Sched/Round.antt =====
-- One round of `next_proc` at a priority that takes no process: the queues change places.
use agatha.Prelude.{
  true-ne-false, ℕ, zero, suc, ◌+◌, ◌%◌, ◌<◌, ◌≤◌, ◌≡◌, ◌≢◌, refl, sym, ap, ◌∙◌, Bool, true, false,
  Bool-cases, inl, inr, some, List, [], ◌∷◌, ◌++◌, arith, update, update-same, update-other,
  update_elim, length, length-append, ltb, ◌&&◌, ◌==◌, All,
}
use agatha.Kernel.Links.{Ptr, nil}
use agatha.Kernel.Links.Chain.{first, Chain}
use agatha.Kernel.Sched.{
  Sched, is_ready, queue, takes, current, other, min_time_slice, refill, switch_queues, turn_over,
}
use agatha.Kernel.Sched.Queues.{AllQueues, IsQueue}
use agatha.Kernel.Sched.Scan.{rest, moved, ready_at, Scanned}

-- None of `xs` is ready.
abbrev pub NoneReady : Sched → List Ptr → Type 0
NoneReady s xs = All (λ x. is_ready (s.state x) ≡ false) xs

-- `fill v xs ts` gives the slice `v` to all of `xs`.
unfoldable pub fill : ℕ → List Ptr → (Ptr → ℕ) → Ptr → ℕ
fill v [] ts = ts
fill v (x ∷ xs) ts = fill v xs (update ts x v)

fill-keeps : (v : ℕ) (xs : List Ptr) (ts : Ptr → ℕ) (y : Ptr) → ts y ≡ v → fill v xs ts y ≡ v
unfolding fill
fill-keeps v [] ts y h = h
fill-keeps v (x ∷ xs) ts y h = fill-keeps v xs (update ts x v) y (ground arith)

fill-All : (v : ℕ) (xs : List Ptr) (ts : Ptr → ℕ) → All (λ x. fill v xs ts x ≡ v) xs
unfolding fill
fill-All v [] ts = tt
fill-All v (x ∷ xs) ts =
    (fill-keeps v xs (update ts x v) x (update-same ts x v), fill-All v xs (update ts x v))

-- `refill` walks the queue to its end.
refill-fill :
    (v fuel : ℕ) (s : Sched) (b : Ptr) (xs : List Ptr)
    → Chain s.links.next s.links.prev b xs nil
    → length xs < fuel
    → refill v fuel s (first xs nil) ≡ some (record s { ts = fill v xs s.ts })
unfolding refill fill
refill-fill v zero s b xs c h = absurd (omega arith)
refill-fill v (suc fuel) s b [] c h = refl
refill-fill v (suc fuel) s b (x ∷ xs) c h =
    let full : (x == nil) ≡ false = not_nil x c.0 in
    rw (full, c.2) (refill-fill v fuel (record s { ts = update s.ts x v }) x xs c.3 (omega arith))
  where
    not_nil : (x : Ptr) → x ≢ nil → (x == nil) ≡ false
    not_nil x h = ground arith

-- What the first element of `rest` is.
pub rest-found :
    (take : Ptr → Bool) (xs : List Ptr)
    → first (rest take xs) nil ≢ nil
    → (zs : List Ptr) × (rest take xs ≡ first (rest take xs) nil ∷ zs)
      × (take (first (rest take xs) nil) ≡ true)
unfolding rest
rest-found take [] h = absurd (h refl)
rest-found take (x ∷ xs) h = elim (Bool-cases (take x)) [
  | inl e ↦ rw e (xs, refl, e)
  | inr e ↦ rw e (rest-found take xs (rw e at h))
]

ready_false :
    (b : Bool) (n : ℕ) → min_time_slice < n → (b && ltb min_time_slice n) ≡ false → b ≡ false
ready_false b n h e = ground arith

-- No process is taken, and what moves to the other queue is not ready: then none was.
pub NoneReady-moved :
    (s : Sched) (xs : List Ptr)
    → All (λ x. x ≢ nil) xs
    → first (rest (takes s) xs) nil ≡ nil
    → NoneReady s (moved (takes s) (ready_at s) xs)
    → NoneReady s xs
unfolding rest moved
NoneReady-moved s [] ne e h = tt
NoneReady-moved s (x ∷ xs) ne e h = elim (Bool-cases (takes s x)) [
  | inl took ↦ absurd (ne.0 (rw took at e))
  | inr not ↦ elim (Bool-cases (ready_at s x)) [
    | inl r ↦ absurd (true-ne-false (sym r ∙ (rw (not, r) at h).0))
    | inr r ↦ (r, NoneReady-moved s xs ne.1 (rw not at e) (rw (not, r) at h))
  ]
]

-- With full slices a queue from which none is taken has no ready process.
pub NoneReady-full :
    (s : Sched) (v : ℕ) (xs : List Ptr)
    → min_time_slice < v
    → All (λ x. x ≢ nil) xs
    → All (λ x. s.ts x ≡ v) xs
    → first (rest (takes s) xs) nil ≡ nil
    → NoneReady s xs
unfolding rest
NoneReady-full s v [] lt ne ts e = tt
NoneReady-full s v (x ∷ xs) lt ne ts e = elim (Bool-cases (takes s x)) [
  | inl took ↦ absurd (ne.0 (rw took at e))
  | inr not ↦ (
    ready_false (is_ready (s.state x)) (s.ts x) (omega (arith, ts.0)) not,
    NoneReady-full s v xs lt ne.1 ts.1 (rw not at e),
  )
]

pub IsQueue-ne_nil : (s : Sched) (l : Ptr) (xs : List Ptr) → IsQueue s l xs → All (λ x. x ≢ nil) xs
IsQueue-ne_nil s l xs is = Chain-ne_nil s.links.next s.links.prev nil xs is.linked.chain
  where
    Chain-ne_nil :
        (nx pv : Ptr → Ptr) (b : Ptr) (xs : List Ptr) → Chain nx pv b xs nil → All (λ x. x ≢ nil) xs
    Chain-ne_nil nx pv b [] c = tt
    Chain-ne_nil nx pv b (x ∷ xs) c = (c.0, Chain-ne_nil nx pv x xs c.3)

-- The queues at the other priorities are as they were.
abbrev pub SameLevels : Sched → (Ptr → List Ptr) → ℕ → Sched → (Ptr → List Ptr) → Type 0
SameLevels s q i t q' =
    (k : ℕ) → k ≢ i → (q' (current t k) ≡ q (current s k)) × (q' (other t k) ≡ q (other s k))

abbrev pub Turns : Sched → Type 0
Turns s = (k : ℕ) → s.turn k < 2

-- After a round that takes no process, with `xs` left over in the queue that was walked.
pub record Round (systick : ℕ) (s : Sched) (i : ℕ) (q : Ptr → List Ptr) (t : Sched)
    (q' : Ptr → List Ptr) : Type 0 where
  pub all : AllQueues t q'
  pub turns : Turns t
  pub state : t.state ≡ s.state
  pub cur : q' (current t i) ≡ q (other s i) ++ moved (takes s) (ready_at s) (q (current s i))
  pub oth : q' (other t i) ≡ []
  pub levels : SameLevels s q i t q'
  pub full : All (λ x. t.ts x ≡ systick) (q' (current t i))

rest-nil :
    (take : Ptr → Bool) (xs : List Ptr)
    → All (λ x. x ≢ nil) xs
    → first (rest take xs) nil ≡ nil
    → rest take xs ≡ []
unfolding rest
rest-nil take [] ne e = refl
rest-nil take (x ∷ xs) ne e = elim (Bool-cases (take x)) [
  | inl t ↦ absurd (ne.0 (rw t at e))
  | inr f ↦ rw f (rest-nil take xs ne.1 (rw f at e))
]

length-moved : (take keep : Ptr → Bool) (xs : List Ptr) → length (moved take keep xs) ≤ length xs
unfolding moved
length-moved take keep [] = omega arith
length-moved take keep (x ∷ xs) = ground (arith, length-moved take keep xs)

pub fits_moved :
    (take keep : Ptr → Bool) (xs ys : List Ptr) (fuel : ℕ)
    → length xs + length ys < fuel
    → length (ys ++ moved take keep xs) < fuel
fits_moved take keep xs ys fuel h =
    omega (arith, length-append ys (moved take keep xs), length-moved take keep xs)

flip_twice : (a b : ℕ) → a < 2 → b ≡ (a + 1) % 2 → (b + 1) % 2 ≡ a
flip_twice a b h e = omega arith

-- After a walk that takes `r`.
pub record Found (s : Sched) (i : ℕ) (q : Ptr → List Ptr) (t : Sched) (r : Ptr)
    (q' : Ptr → List Ptr) : Type 0 where
  pub all : AllQueues t q'
  pub turns : Turns t
  pub state : t.state ≡ s.state
  pub ts : t.ts ≡ s.ts
  pub took : takes s r ≡ true
  pub queued : (zs : List Ptr) × (q' (current t i) ≡ r ∷ zs)
  pub levels : SameLevels s q i t q'

module _ (s : Sched) (i : ℕ) (q : Ptr → List Ptr) (turns : Turns s) where
  levels_of_elsewhere :
      (t : Sched) (q' : Ptr → List Ptr)
      → ((k : ℕ) → k ≢ i → t.turn k ≡ s.turn k)
      → ((l : Ptr) → l ≢ current s i → l ≢ other s i → q' l ≡ q l)
      → SameLevels s q i t q'
  levels_of_elsewhere t q' same kept k ne =
      let a = turns k in
      let b = turns i in
      (
        ap (λ j. q' (queue k j)) (same k ne) ∙ kept (current s k) (omega arith) (omega arith),
        ap (λ j. q' (queue k ((j + 1) % 2))) (same k ne)
            ∙ kept (other s k) (omega arith) (omega arith),
      )

  module _ (systick fuel : ℕ) (all : AllQueues s q) where
    pub Found-of-scan :
        (t : Sched) (r : Ptr)
        → Scanned s i q (q (current s i)) t r
        → r ≢ nil
        → (q' : Ptr → List Ptr) × Found s i q t r q'
    Found-of-scan t r (q', all', same, m, e) ne =
        let (zs, eq, took) = rest-found (takes s) (q (current s i)) (λ z. ne (e ∙ z)) in
        (
          q',
          record {
            all = all';
            turns = λ k. rw same.turn (turns k);
            state = same.state;
            ts = same.ts;
            took = rw e took;
            queued = (zs, rw (same.turn, e) (m.cur ∙ eq));
            levels = levels_of_elsewhere t q' (λ k n. ap (λ f. f k) same.turn) m.elsewhere;
          },
        )

    pub Round-of-scan :
        (s' : Sched)
        → Scanned s i q (q (current s i)) s' nil
        → length (q (current s i)) + length (q (other s i)) < fuel
        → (t : Sched) × (q' : Ptr → List Ptr) × (turn_over systick fuel s' i ≡ some t)
          × Round systick s i q t q'
    unfolding turn_over
    Round-of-scan s' (q', all', same, m, e) fits =
        let u = switch_queues s' i in
        let turn : u.turn i ≡ (s.turn i + 1) % 2 =
          update-same s'.turn i ((s'.turn i + 1) % 2) ∙ ap (λ f. (f i + 1) % 2) same.turn in
        let cu : current u i ≡ other s i = ap (queue i) turn in
        let ou : other u i ≡ current s i =
          ap (queue i) (flip_twice (s.turn i) (u.turn i) (turns i) turn) in
        let zs = q' (current u i) in
        let here = all' (current u i) (omega arith) in
        let filled : zs ≡ q (other s i) ++ moved (takes s) (ready_at s) (q (current s i)) =
          ap q' cu ∙ m.oth in
        (
          record u { ts = fill systick zs u.ts },
          q',
          rw here.linked.head (
              refill-fill systick fuel u nil zs here.linked.chain (
                rw filled
                  (fits_moved (takes s) (ready_at s) (q (current s i)) (q (other s i)) fuel fits))),
          record {
            all = λ l h. record { linked = (all' l h).linked; marked = (all' l h).marked };
            turns = λ k.
                update_elim (λ _ n. n < 2) s'.turn i ((s'.turn i + 1) % 2) k (omega arith)
                  (λ _. rw same.turn (turns k));
            state = same.state;
            cur = filled;
            oth =
                ap q' ou
                ∙ m.cur
                ∙ rest-nil (takes s) (q (current s i))
                    (IsQueue-ne_nil s (current s i) (q (current s i))
                      (all (current s i) (omega arith)))
                    (sym e);
            levels =
                levels_of_elsewhere u q'
                  (λ k n.
                    update-other s'.turn i k ((s'.turn i + 1) % 2) n ∙ ap (λ f. f k) same.turn)
                  m.elsewhere;
            full = fill-All systick zs u.ts;
          },
        )
