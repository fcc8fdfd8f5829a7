-- ===== src/Kernel/Sched/Pick.antt =====
-- `next_proc` ends, and what it returns.
use agatha.Prelude.{
  true-ne-false, ℕ, zero, suc, ◌*◌, ◌<◌, ◌≤◌, ◌≡◌, refl, sym, ap, ◌∙◌, subst, true, false,
  Bool-cases, inl, inr, some, List, [], ◌∷◌, arith, ◌==◌, ==_iff, All,
}
use agatha.Kernel.Links.{Ptr, nil}
use agatha.Kernel.Links.Chain.{first}
use agatha.Kernel.Sched.{
  Sched, is_ready, takes, current, other, min_time_slice, priority_max, scan, turn_over, pick,
  next_proc,
}
use agatha.Kernel.Sched.Queues.{AllQueues, IsQueue}
use agatha.Kernel.Sched.Scan.{rest, Scanned, scan-Scanned}
use agatha.Kernel.Sched.Round.{
  NoneReady-full, IsQueue-ne_nil, Turns, Round, Found, Found-of-scan, Round-of-scan,
}
use agatha.Kernel.Sched.Outcome.{
  Idle, Fits, Outcome, nothing, took, Phase, Phase-of-le, moved-none, Outcome-back, Fits-after,
  pick-taken, pick-over,
}

-- A result of `pick` with what it says.
abbrev pub Picked : ℕ → (systick fuel : ℕ) → Sched → (Ptr → List Ptr) → ℕ → Type 0
Picked rounds systick fuel s q i =
    (t : Sched) × (r : Ptr) × (q' : Ptr → List Ptr) × (pick rounds systick fuel s i ≡ some (t, r))
    × AllQueues t q'
    × Turns t
    × (t.state ≡ s.state)
    × Outcome s q i t r q'

-- A queue with no head is empty.
empty_of_head :
    (s : Sched) (l : Ptr) (xs : List Ptr)
    → IsQueue s l xs
    → (s.links.head l == nil) ≡ true
    → xs ≡ []
empty_of_head s l [] is e = refl
empty_of_head s l (x ∷ xs) is e =
    absurd (is.linked.chain.0 (sym is.linked.head ∙ (==_iff (s.links.head l) nil).0 e))

takes-ready : (s : Sched) (r : Ptr) → takes s r ≡ true → is_ready (s.state r) ≡ true
takes-ready s r e = ground arith

takes-slice : (s : Sched) (r : Ptr) → takes s r ≡ true → min_time_slice < s.ts r
takes-slice s r e = ground arith

module _ (systick fuel : ℕ) (s : Sched) (i : ℕ) (q : Ptr → List Ptr) (all : AllQueues s q) where
  Picked-of-Found :
      (rounds : ℕ) (t : Sched) (r : Ptr) (q' : Ptr → List Ptr)
      → Found s i q t r q'
      → (r == nil) ≡ false
      → scan fuel s i (s.links.head (current s i)) ≡ some (t, r)
      → Picked (suc rounds) systick fuel s q (suc i)
  Picked-of-Found rounds t r q' f ne run =
      let (zs, e) = f.queued in
      (
        t,
        r,
        q',
        pick-taken rounds systick fuel s t i r run ne,
        f.all,
        f.turns,
        f.state,
        took i (omega arith) (takes-ready s r f.took) (rw f.ts (takes-slice s r f.took)) zs e
            λ k lt lt'. absurd (omega arith),
      )

  module _ (rounds : ℕ) (s' t : Sched) (r : Ptr) (q' : Ptr → List Ptr)
      (round : Round systick s i q t q')
      (quiet : first (rest (takes s) (q (current s i))) nil ≡ nil)
      (run : scan fuel s i (s.links.head (current s i)) ≡ some (s', r)) (e : (r == nil) ≡ true)
      (over : turn_over systick fuel s' i ≡ some t) where
    -- The search goes on one priority lower.
    Picked-lower :
        (t.links.head (current t i) == nil) ≡ true
        → Picked rounds systick fuel t q' i
        → Picked (suc rounds) systick fuel s q (suc i)
    Picked-lower low (u, r', q'', eq, all', turns', state, out) =
        let gone =
          empty_of_head t (current t i) (q' (current t i)) (round.all (current t i) (omega arith))
            low in
        let idle : Idle t q' i = rw (gone, round.oth) (tt, tt) in
        (
          u,
          r',
          q'',
          pick-over rounds systick fuel s s' i r run t e over ∙ rw low eq,
          all',
          turns',
          state ∙ round.state,
          Outcome-back systick s i q t q' all round quiet i (suc i) u r' q'' (omega arith)
              (λ k ge lt. let at : i ≡ k = omega arith in subst (Idle t q') at idle) out,
        )

    -- The search goes on at the same priority, over the other queue.
    Picked-again :
        (t.links.head (current t i) == nil) ≡ false
        → Picked rounds systick fuel t q' (suc i)
        → Picked (suc rounds) systick fuel s q (suc i)
    Picked-again high (u, r', q'', eq, all', turns', state, out) = (
      u,
      r',
      q'',
      pick-over rounds systick fuel s s' i r run t e over ∙ rw high eq,
      all',
      turns',
      state ∙ round.state,
      Outcome-back systick s i q t q' all round quiet (suc i) (suc i) u r' q'' (omega arith)
          (λ k ge lt. absurd (omega arith)) out,
    )

-- In the second round at a priority nothing is left to move.
settled :
    (systick : ℕ) (s : Sched) (i : ℕ) (q : Ptr → List Ptr) (t : Sched) (q' : Ptr → List Ptr)
    → min_time_slice < systick
    → AllQueues s q
    → Round systick s i q t q'
    → first (rest (takes s) (q (current s i))) nil ≡ nil
    → q (other s i) ≡ []
    → All (λ x. s.ts x ≡ systick) (q (current s i))
    → q' (current t i) ≡ []
settled systick s i q t q' slice all round quiet oth full =
    let ne = IsQueue-ne_nil s (current s i) (q (current s i)) (all (current s i) (omega arith)) in
    let idle = NoneReady-full s systick (q (current s i)) slice ne full quiet in
    round.cur ∙ rw (oth, moved-none s (q (current s i)) idle)

rounds_left :
    (systick rounds : ℕ) (s : Sched) (q : Ptr → List Ptr) (i : ℕ)
    → Phase systick (suc rounds) s q (suc i)
    → 2 * i ≤ rounds
rounds_left systick rounds s q i (inl h) = omega arith
rounds_left systick rounds s q i (inr h) = omega (arith, h.0)

next-Phase :
    (systick rounds : ℕ) (s : Sched) (q : Ptr → List Ptr) (i : ℕ) (t : Sched) (q' : Ptr → List Ptr)
    → min_time_slice < systick
    → AllQueues s q
    → Round systick s i q t q'
    → first (rest (takes s) (q (current s i))) nil ≡ nil
    → (t.links.head (current t i) == nil) ≡ false
    → Phase systick (suc rounds) s q (suc i)
    → Phase systick rounds t q' (suc i)
next-Phase systick rounds s q i t q' slice all round quiet high (inl h) =
    inr (omega arith, round.oth, round.full)
next-Phase systick rounds s q i t q' slice all round quiet high (inr (le, oth, full)) =
    let gone = settled systick s i q t q' slice all round quiet oth full in
    let at : t.links.head (current t i) ≡ nil =
      (round.all (current t i) (omega arith)).linked.head ∙ ap (λ l. first l nil) gone in
    absurd (true-ne-false (sym ((==_iff (t.links.head (current t i)) nil).1 at) ∙ high))

module _ (systick fuel : ℕ) (slice : min_time_slice < systick) where
  pick-Picked :
      (rounds : ℕ) (s : Sched) (q : Ptr → List Ptr) (i : ℕ)
      → Turns s
      → AllQueues s q
      → Fits fuel s q
      → Phase systick rounds s q i
      → Picked rounds systick fuel s q i
  unfolding pick
  pick-Picked zero s q zero turns all fits ph =
      (s, nil, q, refl, all, turns, refl, nothing refl λ k h. absurd (omega arith))
  pick-Picked (suc rounds) s q zero turns all fits ph =
      (s, nil, q, refl, all, turns, refl, nothing refl λ k h. absurd (omega arith))
  pick-Picked zero s q (suc i) turns all fits (inl h) = absurd (omega arith)
  pick-Picked zero s q (suc i) turns all fits (inr h) = absurd (omega (arith, h.0))
  pick-Picked (suc rounds) s q (suc i) turns all fits ph =
      let head = (all (current s i) (omega arith)).linked.head in
      let (s', r, run, done) =
        scan-Scanned fuel s i q (q (current s i)) (turns i) all refl (omega (arith, fits i)) in
      let run' : scan fuel s i (s.links.head (current s i)) ≡ some (s', r) =
        ap (scan fuel s i) head ∙ run in
      elim (Bool-cases (r == nil)) [
        | inr e ↦
            let (q', f) = Found-of-scan s i q turns systick fuel all s' r done (ground arith) in
            Picked-of-Found systick fuel s i q all rounds s' r q' f e run'
        | inl e ↦
            let is_nil = (==_iff r nil).0 e in
            let done' = subst (Scanned s i q (q (current s i)) s') is_nil done in
            let (t, q', over, round) =
              Round-of-scan s i q turns systick fuel all s' done' (fits i) in
            let quiet = sym done'.4 in
            let fits' = Fits-after systick s i q t q' all round quiet fuel fits in
            elim (Bool-cases (t.links.head (current t i) == nil)) [
              | inl low ↦
                  Picked-lower systick fuel s i q all rounds s' t r q' round quiet run' e over low (
                    pick-Picked rounds t q' i round.turns round.all fits'
                      (Phase-of-le systick rounds t q' i (rounds_left systick rounds s q i ph)))
              | inr high ↦
                  Picked-again systick fuel s i q all rounds s' t r q' round quiet run' e over high
                    (pick-Picked rounds t q' (suc i) round.turns round.all fits'
                      (next-Phase systick rounds s q i t q' slice all round quiet high ph))
            ]
      ]

  -- From well linked ready queues that fit the fuel, with a SYSTICK above MIN_TIME_SLICE, next_proc
  -- ends. It returns a process that is ready and has more than MIN_TIME_SLICE left at the highest
  -- priority at which any process on a queue is ready, or nil if none is; the queues are well linked
  -- afterwards and no process changes its state.
  pub next_proc-picks :
      (s : Sched) (q : Ptr → List Ptr)
      → Turns s
      → AllQueues s q
      → Fits fuel s q
      → (t : Sched) × (r : Ptr) × (q' : Ptr → List Ptr) × (next_proc systick fuel s ≡ some (t, r))
        × AllQueues t q'
        × Turns t
        × (t.state ≡ s.state)
        × Outcome s q priority_max t r q'
  unfolding next_proc
  next_proc-picks s q turns all fits =
      pick-Picked (2 * priority_max) s q priority_max turns all fits (inl (omega arith))
