-- ===== src/Kernel/Ipc/Reply.antt =====
-- `reply` to a process that waits for it.
use agatha.Prelude.{
  ℕ, ◌+◌, ◌-◌, ◌<◌, ◌≡◌, ◌≢◌, refl, ap, ◌∙◌, true, false, ◌&&◌, ◌==◌, ==_iff, update, update-same,
  update-other, Option, none, some, List, ◌∷◌, ◌++◌, length, All, Option-cases, inl, inr,
}
use agatha.Kernel.Links.{Ptr, nil, unlink}
use agatha.Kernel.Links.Chain.{first}
use agatha.Kernel.Links.Laws.{IsList}
use agatha.Kernel.Links.Unlink.{unlink-IsList}
use agatha.Kernel.Sched.{ProcState, min_time_slice}
use agatha.Kernel.State.{Cap, Slot, Label, Proc, Kernel, ok, ok_code}
use agatha.Kernel.Run.{Clock, proc_ready}
use agatha.Kernel.Run.Direct.{handed}
use agatha.Kernel.Ipc.{is_awaiting, reply, hand_over, move_cap, walk, set_proc}
use agatha.Kernel.Ipc.Pending.{walk-finds, not_nil}
use agatha.Kernel.Ipc.Call.{woken, woken-state}

-- Handing over a capability changes nothing but capabilities.
hand_over_caps :
    (s : Kernel) (p : Ptr) (o : Option Slot)
    → (k : Ptr → ℕ → Cap) × (hand_over s p o ≡ record s { caps = k })
unfolding hand_over move_cap
hand_over_caps s p none = (s.caps, refl)
hand_over_caps s p (some o) = elim (Option-cases ((s.proc p).give)) [
  | inl e ↦ (s.caps, rw (e, hand_over) refl)
  | inr (g, e) ↦ ((move_cap s o g).caps, rw (e, hand_over) refl)
]

-- After `reply`: the client `p` is off the list of the endpoint, has the message and runs.
pub record Replied (s : Kernel) (e p : Ptr) (zs : List Ptr) (answer : List ℕ) (t : Kernel)
    : Type 0 where
  pub up : t.up ≡ p
  pub queued : IsList t.waits e zs
  pub m : (t.proc p).m ≡ answer
  pub label : (t.proc p).label ≡ (s.proc p).label
  pub server : (t.proc s.up).label ≡ Label.in_return
  pub state : t.sched.state ≡ update s.sched.state p ProcState.ready
  pub others : (x : Ptr) → x ≢ p → x ≢ s.up → t.proc x ≡ s.proc x

module _ (c : Clock) (s : Kernel) (e : Ptr) (pid : ℕ) (m : List ℕ) (o : Option Slot) (xs : List Ptr)
    (p : Ptr) (ys : List Ptr) (up : s.up ≢ nil) (ne : p ≢ nil) (other : p ≢ s.up)
    (waiting : IsList s.waits e (xs ++ (p ∷ ys)))
    (before : All (λ x. (is_awaiting (s.sched.state x) && (s.proc x).pid == pid) ≡ false) xs)
    (awaits : is_awaiting (s.sched.state p) ≡ true) (same : (s.proc p).pid ≡ pid)
    (enough : length (xs ++ (p ∷ ys)) < c.fuel)
    (slice : min_time_slice < s.sched.ts p + (s.sched.ts s.up - c.passed)) where
  -- reply takes the first process with the given pid that is waiting for a reply out of the list of
  -- the endpoint, gives it the message, makes it ready and runs it at once, if it has more than
  -- MIN_TIME_SLICE with what the server has left, whether or not a capability is handed over, where it
  -- is not the server itself; the messages, labels and bound signals of all processes but the two stay
  -- as they are.
  pub reply-Replied :
      (t : Kernel) × (reply c s e pid m o ≡ ok (ok_code, t)) × Replied s e p (xs ++ ys) m t
  unfolding reply
  reply-Replied = (
    t,
    rw (waiting.head, reply)
        (rw (walked, reply)
          (rw (not_nil p ne, reply)
            (rw (over.1, reply) (rw (woken c Label.in_return p s₂ up ne other slice) refl)))),
    record {
      up = refl;
      queued = unlink-IsList s.waits e xs p ys waiting;
      m = ap (λ (v : Proc). v.m) client;
      label = ap (λ (v : Proc). v.label) client;
      server = ap (λ (v : Proc). v.label) (update-same s₂.proc s.up stopped);
      state = woken-state c Label.in_return p s₂;
      others = λ x n n'. update-other s₂.proc s.up x stopped n' ∙ update-other s.proc p x told n;
    },
  )
    where
      told : Proc
      told = (let v = s.proc p in record v { m = m })

      s₁ : Kernel
      s₁ = set_proc (record s { waits = unlink s.waits e p }) p told

      over : (k : Ptr → ℕ → Cap) × (hand_over s₁ p o ≡ record s₁ { caps = k })
      over = hand_over_caps s₁ p o

      s₂ : Kernel
      s₂ = record s₁ { caps = over.0 }

      t : Kernel
      t = handed c Label.in_return p (record s₂ { sched = proc_ready s₂.sched p })

      stopped : Proc
      stopped = (let v = s₂.proc s.up in record v { label = Label.in_return })

      client : t.proc p ≡ told
      client = update-other s₂.proc s.up p stopped other ∙ update-same s.proc p told

      found : (is_awaiting (s.sched.state p) && (s.proc p).pid == pid) ≡ true
      found = rw (awaits, (==_iff ((s.proc p).pid) pid).1 same) refl

      walked :
          walk c.fuel
            (λ p. is_awaiting (s.sched.state p) && (s.proc p).pid == pid)
            s.waits.next
            (first (xs ++ (p ∷ ys)) nil)
          ≡ some p
      walked =
          walk-finds (λ p. is_awaiting (s.sched.state p) && (s.proc p).pid == pid) s.waits.next
            s.waits.prev c.fuel nil xs p ys waiting.chain before found enough
