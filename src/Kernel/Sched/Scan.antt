-- ===== src/Kernel/Sched/Scan.antt =====
-- The inner loop of `next_proc` over the current queue of a priority, as a function on lists.
use agatha.Prelude.{
  ℕ, zero, suc, ◌+◌, ◌%◌, ◌<◌, ◌≡◌, ◌≢◌, refl, sym, ap, ◌∙◌, subst, Bool, false, Bool-cases, inl,
  inr, some, List, [], ◌∷◌, ◌++◌, arith, update, update-same, update-other, length, if◌then◌else◌,
  ◌==◌,
}
use mathlib.Core.List.{append-nil, append_assoc}
use agatha.Kernel.Links.{Ptr, nil}
use agatha.Kernel.Links.Chain.{first}
use agatha.Kernel.Sched.{
  Sched, is_ready, queue, takes, current, other, add_to_list_tail, remove_from_list, pass_over,
  scan,
}
use agatha.Kernel.Sched.Queues.{
  AllQueues, IsQueue, add_to_list_tail-AllQueues, remove_from_list-AllQueues,
}

-- What is left in the queue: all from the first process that is taken.
unfoldable pub rest : (Ptr → Bool) → List Ptr → List Ptr
rest take [] = []
rest take (x ∷ xs) = if take x then x ∷ xs else rest take xs

-- What goes to the other queue: the ready processes in front of it.
unfoldable pub moved : (take keep : Ptr → Bool) → List Ptr → List Ptr
moved take keep [] = []
moved take keep (x ∷ xs) =
    if take x then [] else (if keep x then x ∷ [] else []) ++ moved take keep xs

abbrev pub ready_at : Sched → Ptr → Bool
ready_at s x = is_ready (s.state x)

-- The fields that walks over the queues leave alone.
pub record SameProcs (s t : Sched) : Type 0 where
  pub state : t.state ≡ s.state
  pub ts : t.ts ≡ s.ts
  pub turn : t.turn ≡ s.turn
  pub priority : t.priority ≡ s.priority

-- From `q` to `q'` the queues of priority `i` become `xs` and `ys`, and the others are as they were.
pub record Moved (s : Sched) (i : ℕ) (q q' : Ptr → List Ptr) (xs ys : List Ptr) : Type 0 where
  pub cur : q' (current s i) ≡ xs
  pub oth : q' (other s i) ≡ ys
  pub elsewhere : (l : Ptr) → l ≢ current s i → l ≢ other s i → q' l ≡ q l

pub current-ne-other : (s : Sched) (i : ℕ) → s.turn i < 2 → current s i ≢ other s i
current-ne-other s i h = omega arith

module _ (s : Sched) (i : ℕ) (q : Ptr → List Ptr) (h : s.turn i < 2) (all : AllQueues s q) where
  pub passed :
      (x : Ptr) (xs : List Ptr)
      → q (current s i) ≡ x ∷ xs
      → (q' : Ptr → List Ptr) × AllQueues (pass_over s i x) q'
        × SameProcs s (pass_over s i x)
        × Moved s i q q' xs (q (other s i) ++ (if ready_at s x then x ∷ [] else []))
  unfolding pass_over add_to_list_tail remove_from_list
  passed x xs e = elim (Bool-cases (ready_at s x)) [
    | inl r ↦
        rw (r, pass_over)
          (
            update q₁ (other s i) (q₁ (other s i) ++ (x ∷ [])),
            add_to_list_tail-AllQueues s₁ q₁ gone (other s i) (omega arith) x ne
                (update-same s.slist x nil),
            record { state = refl; ts = refl; turn = refl; priority = refl },
            record {
              cur =
                  update-other q₁ (other s i) (current s i) (q₁ (other s i) ++ (x ∷ []))
                    (current-ne-other s i h)
                  ∙ update-same q (current s i) xs;
              oth =
                  update-same q₁ (other s i) (q₁ (other s i) ++ (x ∷ []))
                  ∙ ap (λ l. l ++ (x ∷ [])) kept;
              elsewhere = λ l n m.
                  update-other q₁ (other s i) l (q₁ (other s i) ++ (x ∷ [])) m
                  ∙ update-other q (current s i) l xs n;
            },
          )
    | inr r ↦
        rw (r, pass_over)
          (
            q₁,
            gone,
            record { state = refl; ts = refl; turn = refl; priority = refl },
            record {
              cur = update-same q (current s i) xs;
              oth = kept ∙ sym (append-nil (q (other s i)));
              elsewhere = λ l n m. update-other q (current s i) l xs n;
            },
          )
  ]
    where
      s₁ : Sched
      s₁ = remove_from_list s (current s i) x

      q₁ : Ptr → List Ptr
      q₁ = update q (current s i) xs

      gone : AllQueues s₁ q₁
      gone = remove_from_list-AllQueues s q all (current s i) (omega arith) [] x xs e

      kept : q₁ (other s i) ≡ q (other s i)
      kept = update-other q (current s i) (other s i) xs (λ r. current-ne-other s i h (sym r))

      ne : x ≢ nil
      ne = (subst (IsQueue s (current s i)) e (all (current s i) (omega arith))).linked.chain.0

takes_same : (s t : Sched) → SameProcs s t → takes t ≡ takes s
takes_same s t same = rw (same.state, same.ts) refl

SameProcs-trans : {s t u : Sched} → SameProcs s t → SameProcs t u → SameProcs s u
SameProcs-trans a b = record {
  state = b.state ∙ a.state;
  ts = b.ts ∙ a.ts;
  turn = b.turn ∙ a.turn;
  priority = b.priority ∙ a.priority;
}

-- What a walk over the current queue comes to.
abbrev pub Scanned : Sched → ℕ → (Ptr → List Ptr) → List Ptr → Sched → Ptr → Type 0
Scanned s i q xs t r =
    (q' : Ptr → List Ptr) × AllQueues t q'
    × SameProcs s t
    × Moved s i q q' (rest (takes s) xs) (q (other s i) ++ moved (takes s) (ready_at s) xs)
    × (r ≡ first (rest (takes s) xs) nil)

not_nil : (x : Ptr) → x ≢ nil → (x == nil) ≡ false
not_nil x h = ground arith

-- One process passed over, and then the rest of the walk.
combine :
    (s s₁ : Sched) (i : ℕ) (q q₁ : Ptr → List Ptr) (xs k : List Ptr) (t : Sched) (r : Ptr)
    → SameProcs s s₁
    → Moved s i q q₁ xs (q (other s i) ++ k)
    → Scanned s₁ i q₁ xs t r
    → (q' : Ptr → List Ptr) × AllQueues t q'
      × SameProcs s t
      × Moved s i q q' (rest (takes s) xs) (q (other s i) ++ (k ++ moved (takes s) (ready_at s) xs))
      × (r ≡ first (rest (takes s) xs) nil)
combine s s₁ i q q₁ xs k t r same m (q', all, same', m', e) =
    let cur : current s₁ i ≡ current s i = ap (λ f. queue i (f i)) same.turn in
    let oth : other s₁ i ≡ other s i = ap (λ f. queue i ((f i + 1) % 2)) same.turn in
    let tk = takes_same s s₁ same in
    let rd : ready_at s₁ ≡ ready_at s = ap (λ f x. is_ready (f x)) same.state in
    (
      q',
      all,
      SameProcs-trans same same',
      record {
        cur = ap q' (sym cur) ∙ m'.cur ∙ ap (λ f. rest f xs) tk;
        oth = ap q' (sym oth) ∙ m'.oth ∙ rw (oth, m.oth, tk, rd) (append_assoc (q (other s i)) k _);
        elsewhere = λ l n o. m'.elsewhere l (rw cur n) (rw oth o) ∙ m.elsewhere l n o;
      },
      e ∙ ap (λ f. first (rest f xs) nil) tk,
    )

-- With fuel for the queue's length, `scan` ends, and leaves the queues as the lists say.
pub scan-Scanned :
    (fuel : ℕ) (s : Sched) (i : ℕ) (q : Ptr → List Ptr) (xs : List Ptr)
    → s.turn i < 2
    → AllQueues s q
    → q (current s i) ≡ xs
    → length xs < fuel
    → (t : Sched) × (r : Ptr) × (scan fuel s i (first xs nil) ≡ some (t, r)) × Scanned s i q xs t r
unfolding scan rest moved
scan-Scanned zero s i q xs h all e lt = absurd (omega arith)
scan-Scanned (suc fuel) s i q [] h all e lt = (
  s,
  nil,
  refl,
  (
    q,
    all,
    record { state = refl; ts = refl; turn = refl; priority = refl },
    record { cur = e; oth = sym (append-nil (q (other s i))); elsewhere = λ l n m. refl },
    refl,
  ),
)
scan-Scanned (suc fuel) s i q (x ∷ xs) h all e lt =
    let here = subst (IsQueue s (current s i)) e (all (current s i) (omega arith)) in
    let full : (x == nil) ≡ false = not_nil x here.linked.chain.0 in
    elim (Bool-cases (takes s x)) [
      | inl took ↦
          rw (full, took)
            (
              s,
              x,
              refl,
              (
                q,
                all,
                record { state = refl; ts = refl; turn = refl; priority = refl },
                record {
                  cur = e;
                  oth = sym (append-nil (q (other s i)));
                  elsewhere = λ l n m. refl;
                },
                refl,
              ),
            )
      | inr not ↦
          let (q₁, all₁, same, m) = passed s i q h all x xs e in
          let (t, r, run, done) =
            scan-Scanned fuel (pass_over s i x) i q₁ xs (rw same.turn h) all₁ (rw same.turn m.cur)
              (omega arith) in
          rw (full, not, here.linked.chain.2)
            (t, r, run, combine s (pass_over s i x) i q q₁ xs _ t r same m done)
    ]
