-- ===== src/Kernel/Ipc/Pending.antt =====
-- What a receiver gets: the oldest of the processes that are sending, and its capability.
use agatha.Prelude.{
  ℕ, zero, suc, ◌<◌, ◌≡◌, ◌≢◌, refl, ap, ◌∙◌, Bool, true, false, Bool-cases, inl, inr, ◌==◌, arith,
  update, update-same, update-other, Option, some, none, List, [], ◌∷◌, ◌++◌, length, All,
}
use agatha.Kernel.Links.{Ptr, nil}
use agatha.Kernel.Links.Chain.{first, Chain}
use agatha.Kernel.Links.Laws.{IsList}
use agatha.Kernel.Sched.{ProcState}
use agatha.Kernel.State.{Slot, Proc, Kernel, ok, fault, cap_at, no_cap, set_cap}
use agatha.Kernel.Caps.Slots.{SameSlot, cap_at-set_cap, cap_at-set_cap_same}
use agatha.Kernel.Ipc.{walk, is_sending, get_pending, take_message, move_cap, set_state, tell}

pub not_nil : (x : Ptr) → x ≢ nil → (x == nil) ≡ false
not_nil x h = ground arith

module _ (test : Ptr → Bool) (nx pv : Ptr → Ptr) where
  -- A walk over a list ends at the first process that passes the test.
  pub walk-finds :
      (fuel : ℕ) (b : Ptr) (xs : List Ptr) (p : Ptr) (ys : List Ptr)
      → Chain nx pv b (xs ++ (p ∷ ys)) nil
      → All (λ x. test x ≡ false) xs
      → test p ≡ true
      → length (xs ++ (p ∷ ys)) < fuel
      → walk fuel test nx (first (xs ++ (p ∷ ys)) nil) ≡ some p
  unfolding walk
  walk-finds zero b xs p ys c no_x yes_p h = absurd (omega arith)
  walk-finds (suc fuel) b [] p ys c no_x yes_p h = rw (not_nil p c.0, yes_p)
  walk-finds (suc fuel) b (x ∷ xs) p ys c no_x yes_p h =
      rw (not_nil x c.0, no_x.0, c.2) (walk-finds fuel x xs p ys c.3 no_x.1 yes_p (omega arith))

  pub walk-misses :
      (fuel : ℕ) (b : Ptr) (xs : List Ptr)
      → Chain nx pv b xs nil
      → All (λ x. test x ≡ false) xs
      → length xs < fuel
      → walk fuel test nx (first xs nil) ≡ some nil
  unfolding walk
  walk-misses zero b xs c no_x h = absurd (omega arith)
  walk-misses (suc fuel) b [] c no_x h = refl
  walk-misses (suc fuel) b (x ∷ xs) c no_x h =
      rw (not_nil x c.0, no_x.0, c.2) (walk-misses fuel x xs c.3 no_x.1 (omega arith))

  -- What a walk over a list can come to.
  pub data WalkEnd (xs : List Ptr) (r : Option Ptr) : Type 0 where
    found :
        (ys : List Ptr) (p : Ptr) (zs : List Ptr)
        → xs ≡ ys ++ (p ∷ zs)
        → p ≢ nil
        → test p ≡ true
        → r ≡ some p
        → WalkEnd xs r
    missed : All (λ x. test x ≡ false) xs → r ≡ some nil → WalkEnd xs r

  pub walk-ends :
      (fuel : ℕ) (b : Ptr) (xs : List Ptr)
      → Chain nx pv b xs nil
      → length xs < fuel
      → WalkEnd xs (walk fuel test nx (first xs nil))
  unfolding walk
  walk-ends zero b xs c h = absurd (omega arith)
  walk-ends (suc fuel) b [] c h = missed tt refl
  walk-ends (suc fuel) b (x ∷ xs) c h = elim (Bool-cases (test x)) [
    | inl e ↦ found [] x xs refl c.0 e (rw (not_nil x c.0, e))
    | inr e ↦ rw (not_nil x c.0, e, c.2) (later (walk-ends fuel x xs c.3 (omega arith)) e)
  ]
    where
      later : {r : Option Ptr} → WalkEnd xs r → test x ≡ false → WalkEnd (x ∷ xs) r
      later (found ys p zs eq ne yes_p r_eq) e =
          found (x ∷ ys) p zs (ap {B = List Ptr} (λ l. x ∷ l) eq) ne yes_p r_eq
      later (missed no_x r_eq) e = missed (e, no_x) r_eq

-- A capability that moves is at its new place, is gone from the old one, and no other is touched.
pub record CapMoved (s : Kernel) (g o : Slot) (t : Kernel) : Type 0 where
  pub arrived : cap_at t o ≡ cap_at s g
  pub gone : cap_at t g ≡ no_cap
  pub others : (d : Slot) → ¬ (SameSlot d g) → ¬ (SameSlot d o) → cap_at t d ≡ cap_at s d

pub move_cap-CapMoved :
    (s : Kernel) (g o : Slot) → ¬ (SameSlot o g) → CapMoved s g o (move_cap s g o)
unfolding move_cap
move_cap-CapMoved s g o ne =
    let t = set_cap s o (cap_at s g) in
    record {
      arrived = cap_at-set_cap t g o no_cap ne ∙ cap_at-set_cap_same s o (cap_at s g);
      gone = cap_at-set_cap_same t g no_cap;
      others = λ d n m. cap_at-set_cap t g d no_cap n ∙ cap_at-set_cap s o d (cap_at s g) m;
    }

module _ (fuel : ℕ) (s : Kernel) (e : Ptr) (xs : List Ptr) (p : Ptr) (ys : List Ptr)
    (quiet : (s.endpoint e).signal ≡ 0) (waiting : IsList s.waits e (xs ++ (p ∷ ys)))
    (before : All (λ x. is_sending (s.sched.state x) ≡ false) xs)
    (sends : is_sending (s.sched.state p) ≡ true) (enough : length (xs ++ (p ∷ ys)) < fuel) where
  get_pending-takes :
      (o : Option Slot) {t : Kernel}
      → p ≢ nil
      → take_message s p o ≡ ok t
      → get_pending fuel s e o ≡ ok (t, true)
  unfolding get_pending
  get_pending-takes o ne taken =
      let walked =
        walk-finds (λ p. is_sending (s.sched.state p)) s.waits.next s.waits.prev fuel nil xs p ys
          waiting.chain before sends enough in
      rw (quiet, get_pending)
        (rw (waiting.head, get_pending) (rw (walked, get_pending) (rw (not_nil p ne, taken))))

-- What the receiver and the sender have after a message has been taken.
pub record Taken (s : Kernel) (p : Ptr) (t : Kernel) : Type 0 where
  pub got : (t.proc s.up).got ≡ (s.proc p).m
  pub sender : (t.proc s.up).sender ≡ (s.proc p).pid
  pub state : t.sched.state ≡ update s.sched.state p ProcState.block_reply
  pub waits : t.waits ≡ s.waits
  pub up : t.up ≡ s.up
  pub others : (x : Ptr) → x ≢ s.up → t.proc x ≡ s.proc x

Taken-tell :
    (s : Kernel) (p : Ptr)
    → Taken s p (tell (set_state s p ProcState.block_reply) (s.proc p).pid (s.proc p).m)
Taken-tell s p =
    let told : Proc =
      (let v = s.proc s.up in record v { sender = (s.proc p).pid; got = (s.proc p).m }) in
    record {
      got = ap (λ (v : Proc). v.got) (update-same s.proc s.up told);
      sender = ap (λ (v : Proc). v.sender) (update-same s.proc s.up told);
      state = refl;
      waits = refl;
      up = refl;
      others = λ x n. update-other s.proc s.up x told n;
    }

module _ (fuel : ℕ) (s : Kernel) (e : Ptr) (xs : List Ptr) (p : Ptr) (ys : List Ptr)
    (quiet : (s.endpoint e).signal ≡ 0) (waiting : IsList s.waits e (xs ++ (p ∷ ys)))
    (before : All (λ x. is_sending (s.sched.state x) ≡ false) xs)
    (sends : is_sending (s.sched.state p) ≡ true) (enough : length (xs ++ (p ∷ ys)) < fuel) where
  -- At an endpoint with no signal, with a process in its list that is sending no capability and none
  -- before it that is sending, endpoint_get_pending gives the running process that message and pid,
  -- marks only that sender as waiting for the reply, and changes no list, capability or endpoint.
  pub get_pending-Taken :
      (o : Option Slot)
      → p ≢ nil
      → (s.proc p).give ≡ none
      → (t : Kernel) × (get_pending fuel s e o ≡ ok (t, true))
        × Taken s p t
        × (t.caps ≡ s.caps)
        × (t.endpoint ≡ s.endpoint)
  get_pending-Taken o ne no_give =
      let t = tell (set_state s p ProcState.block_reply) (s.proc p).pid (s.proc p).m in
      let taken : take_message s p o ≡ ok t = unfold take_message in rw (no_give, take_message) in
      (
        t,
        get_pending-takes fuel s e xs p ys quiet waiting before sends enough o ne taken,
        Taken-tell s p,
        refl,
        refl,
      )

  -- At an endpoint with no signal, where the oldest sender gives a capability in use and the receiver
  -- has another slot for it, endpoint_get_pending delivers the message and moves the capability: it is
  -- at the new slot, the old slot is empty, and no other slot changes.
  pub get_pending-CapMoved :
      (g o : Slot)
      → p ≢ nil
      → (s.proc p).give ≡ some g
      → (cap_at s g).perm ≢ 0
      → ¬ (SameSlot o g)
      → (t : Kernel) × (get_pending fuel s e (some o) ≡ ok (t, true))
        × Taken s p t
        × CapMoved s g o t
  unfolding take_message move_cap
  get_pending-CapMoved g o ne give used apart =
      let told = tell (set_state s p ProcState.block_reply) (s.proc p).pid (s.proc p).m in
      let taken : take_message s p (some o) ≡ ok (move_cap told g o) =
        rw (give, take_message) (rw (not_nil (cap_at s g).perm used)) in
      let tk = Taken-tell s p in
      let mv = move_cap-CapMoved told g o apart in
      (
        move_cap told g o,
        get_pending-takes fuel s e xs p ys quiet waiting before sends enough (some o) ne taken,
        record {
          got = tk.got;
          sender = tk.sender;
          state = tk.state;
          waits = refl;
          up = refl;
          others = tk.others;
        },
        record { arrived = mv.arrived; gone = mv.gone; others = mv.others },
      )

  -- Where the oldest sender gives a capability in use and the receiver names no slot for one,
  -- endpoint_get_pending panics.
  get_pending-no_place :
      (g : Slot)
      → p ≢ nil
      → (s.proc p).give ≡ some g
      → (cap_at s g).perm ≢ 0
      → get_pending fuel s e none ≡ fault
  unfolding get_pending
  get_pending-no_place g ne give used =
      let taken : take_message s p none ≡ fault =
        unfold take_message in rw (give, take_message) (rw (not_nil (cap_at s g).perm used)) in
      let walked =
        walk-finds (λ p. is_sending (s.sched.state p)) s.waits.next s.waits.prev fuel nil xs p ys
          waiting.chain before sends enough in
      rw (quiet, get_pending)
        (rw (waiting.head, get_pending) (rw (walked, get_pending) (rw (not_nil p ne, taken))))
