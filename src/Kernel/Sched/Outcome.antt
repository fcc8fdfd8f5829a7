-- ===== src/Kernel/Sched/Outcome.antt =====
-- What a search of the ready queues comes to, and the rounds that it takes.
use agatha.Prelude.{
  ℕ, zero, suc, ◌+◌, ◌*◌, ◌<◌, ◌≤◌, ◌≡◌, ◌≢◌, refl, sym, subst, true, false, Bool-cases, ◌⊎◌, inl,
  inr, some, List, [], ◌∷◌, ◌++◌, arith, length, if◌then◌else◌, ◌==◌, ==_iff, All, All-left,
  All-right, ltb,
}
use agatha.Kernel.Links.{Ptr, nil}
use agatha.Kernel.Links.Chain.{first}
use agatha.Kernel.Sched.{
  Sched, is_ready, takes, current, other, min_time_slice, scan, turn_over, pick,
}
use agatha.Kernel.Sched.Queues.{AllQueues}
use agatha.Kernel.Sched.Scan.{rest, moved, ready_at}
use agatha.Kernel.Sched.Round.{NoneReady, NoneReady-moved, IsQueue-ne_nil, Round, fits_moved}

-- No process at priority `k` is ready.
abbrev pub Idle : Sched → (Ptr → List Ptr) → ℕ → Type 0
Idle s q k = NoneReady s (q (current s k)) × NoneReady s (q (other s k))

-- Every pair of queues is shorter than the fuel.
abbrev pub Fits : ℕ → Sched → (Ptr → List Ptr) → Type 0
Fits fuel s q = (k : ℕ) → length (q (current s k)) + length (q (other s k)) < fuel

-- What a search below priority `i` that ends in state `t` with `r` says of the state `s` before it.
pub data Outcome (s : Sched) (q : Ptr → List Ptr) (i : ℕ) (t : Sched) (r : Ptr)
    (q' : Ptr → List Ptr) : Type 0 where
  nothing : r ≡ nil → ((k : ℕ) → k < i → Idle s q k) → Outcome s q i t r q'
  took :
      (j : ℕ)
      → j < i
      → is_ready (s.state r) ≡ true
      → min_time_slice < t.ts r
      → (zs : List Ptr) → q' (current t j) ≡ r ∷ zs
      → ((k : ℕ) → j < k → k < i → Idle s q k)
      → Outcome s q i t r q'

-- How many rounds are left: two for each priority, or one less where the queue that is walked next
-- holds full slices and the other is empty.
abbrev pub Phase : ℕ → ℕ → Sched → (Ptr → List Ptr) → ℕ → Type 0
Phase systick rounds s q zero = Unit
Phase systick rounds s q (suc i) =
    (2 * i + 2 ≤ rounds)
    ⊎ ((2 * i + 1 ≤ rounds) × (q (other s i) ≡ []) × All (λ x. s.ts x ≡ systick) (q (current s i)))

pub Phase-of-le :
    (systick rounds : ℕ) (s : Sched) (q : Ptr → List Ptr) (i : ℕ)
    → 2 * i ≤ rounds
    → Phase systick rounds s q i
Phase-of-le systick rounds s q zero h = tt
Phase-of-le systick rounds s q (suc i) h = inl (omega arith)

pub moved-none : (s : Sched) (xs : List Ptr) → NoneReady s xs → moved (takes s) (ready_at s) xs ≡ []
unfolding moved
moved-none s [] h = refl
moved-none s (x ∷ xs) h = rw (h.0, moved-none s xs h.1)

NoneReady-state :
    (s t : Sched) (xs : List Ptr) → t.state ≡ s.state → NoneReady t xs → NoneReady s xs
NoneReady-state s t xs e h = subst (λ f. All (λ x. is_ready (f x) ≡ false) xs) e h

module _ (systick : ℕ) (s : Sched) (i : ℕ) (q : Ptr → List Ptr) (t : Sched) (q' : Ptr → List Ptr)
    (all : AllQueues s q) (round : Round systick s i q t q')
    (quiet : first (rest (takes s) (q (current s i))) nil ≡ nil) where
  -- What is idle after the round was idle before it.
  Idle-back : (k : ℕ) → Idle t q' k → Idle s q k
  Idle-back k h = elim (Bool-cases (k == i)) [
    | inl e ↦
        subst (Idle s q) (sym ((==_iff k i).0 e))
          (at_level (subst (Idle t q') ((==_iff k i).0 e) h))
    | inr e ↦
        let ne : k ≢ i = ground arith in
        let (c, o) = round.levels k ne in
        (
          NoneReady-state s t (q (current s k)) round.state (subst (NoneReady t) c h.0),
          NoneReady-state s t (q (other s k)) round.state (subst (NoneReady t) o h.1),
        )
  ]
    where
      xs : List Ptr
      xs = q (current s i)

      at_level : Idle t q' i → Idle s q i
      at_level h =
          let m =
            NoneReady-state s t (q (other s i) ++ moved (takes s) (ready_at s) xs) round.state
              (subst (NoneReady t) round.cur h.0) in
          (
            NoneReady-moved s xs
                (IsQueue-ne_nil s (current s i) xs (all (current s i) (omega arith))) quiet
                (All-right (λ x. is_ready (s.state x) ≡ false) (q (other s i)) _ m),
            All-left (λ x. is_ready (s.state x) ≡ false) (q (other s i)) _ m,
          )

  pub Outcome-back :
      (j m : ℕ) (u : Sched) (r : Ptr) (q'' : Ptr → List Ptr)
      → j ≤ m
      → ((k : ℕ) → j ≤ k → k < m → Idle t q' k)
      → Outcome t q' j u r q''
      → Outcome s q m u r q''
  Outcome-back j m u r q'' h idle (nothing e none) = nothing e λ k lt. Idle-back k (upto k lt)
    where
      upto : (k : ℕ) → k < m → Idle t q' k
      upto k lt = elim (Bool-cases (ltb k j)) [
        | inl e ↦ none k (ground arith)
        | inr e ↦ idle k (ground arith) lt
      ]
  Outcome-back j m u r q'' h idle (took l lt ready slice zs e above) =
      took l (omega arith) (subst (λ f. is_ready (f r) ≡ true) round.state ready) slice zs e
        λ k up lt'. Idle-back k (upto k up lt')
    where
      upto : (k : ℕ) → l < k → k < m → Idle t q' k
      upto k up lt' = elim (Bool-cases (ltb k j)) [
        | inl e ↦ above k up (ground arith)
        | inr e ↦ idle k (ground arith) lt'
      ]

  pub Fits-after : (fuel : ℕ) → Fits fuel s q → Fits fuel t q'
  Fits-after fuel fits k = elim (Bool-cases (k == i)) [
    | inl e ↦ rw ((==_iff k i).0 e, round.cur, round.oth) (omega (arith, fits_moved' fuel (fits i)))
    | inr e ↦
        let ne : k ≢ i = ground arith in rw ((round.levels k ne).0, (round.levels k ne).1) (fits k)
  ]
    where
      fits_moved' :
          (fuel : ℕ)
          → length (q (current s i)) + length (q (other s i)) < fuel
          → length (q (other s i) ++ moved (takes s) (ready_at s) (q (current s i))) < fuel
      fits_moved' fuel h =
          fits_moved (takes s) (ready_at s) (q (current s i)) (q (other s i)) fuel h

module _ (rounds systick fuel : ℕ) (s s' : Sched) (i : ℕ) (p : Ptr)
    (run : scan fuel s i (s.links.head (current s i)) ≡ some (s', p)) where
  pub pick-taken : (p == nil) ≡ false → pick (suc rounds) systick fuel s (suc i) ≡ some (s', p)
  unfolding pick
  pick-taken e = rw (run, pick) (rw (e, pick))

  pub pick-over :
      (t : Sched)
      → (p == nil) ≡ true
      → turn_over systick fuel s' i ≡ some t
      → pick (suc rounds) systick fuel s (suc i)
        ≡ pick rounds systick fuel t (if t.links.head (current t i) == nil then i else suc i)
  unfolding pick
  pick-over t e over = rw (run, pick) (rw (e, pick) (rw (over, pick)))
