-- ===== src/Kernel/Ipc/Call.antt =====
-- A message to a server that waits, step by step: the client's `mesg`, the server's return from `recv`,
-- the server's `reply` and the client's return from `mesg`.
use agatha.Prelude.{
  ℕ, ◌+◌, ◌-◌, ◌<◌, ◌≡◌, ◌≢◌, refl, sym, ap, ◌∙◌, subst, update, update-same, update-other, Option,
  List, [], ◌∷◌, ◌++◌,
}
use agatha.Kernel.Links.{Ptr, nil, enqueue}
use agatha.Kernel.Links.Chain.{NotIn, last-NotIn}
use agatha.Kernel.Links.Laws.{IsList, append-IsList, enqueue-eq-append}
use agatha.Kernel.Sched.{ProcState, min_time_slice}
use agatha.Kernel.State.{Slot, Label, Proc, Kernel, ok, ok_code}
use agatha.Kernel.Run.{Clock, proc_ready, schedule}
use agatha.Kernel.Run.Direct.{
  schedule-handed, handed, charge-state, proc_ready-state, proc_ready-ts,
}
use agatha.Kernel.Ipc.{mesg}
use agatha.Kernel.Ipc.Pending.{not_nil}

-- `schedule(p)` after `proc_ready(p)`, from the process that is up.
pub woken :
    (c : Clock) (label : Label) (p : Ptr) (s : Kernel)
    → s.up ≢ nil
    → p ≢ nil
    → p ≢ s.up
    → min_time_slice < s.sched.ts p + (s.sched.ts s.up - c.passed)
    → schedule c label p (record s { sched = proc_ready s.sched p })
      ≡ ok (handed c label p (record s { sched = proc_ready s.sched p }))
woken c label p s up ne other slice =
    schedule-handed c label p (record s { sched = proc_ready s.sched p }) up ne other
      (rw (proc_ready-state s.sched p, update-same s.sched.state p ProcState.ready))
      (rw (proc_ready-ts s.sched p) slice)

pub woken-state :
    (c : Clock) (label : Label) (p : Ptr) (s : Kernel)
    → (handed c label p (record s { sched = proc_ready s.sched p })).sched.state
      ≡ update s.sched.state p ProcState.ready
woken-state c label p s =
    charge-state c.passed (proc_ready s.sched p) s.up p ∙ proc_ready-state s.sched p

-- After `mesg`: the client `a` is last in the endpoint's list, and the server `b` runs.
pub record Sent (s : Kernel) (e : Ptr) (xs : List Ptr) (rq : List ℕ) (o : Option Slot) (b : Ptr)
    (t : Kernel) : Type 0 where
  pub up : t.up ≡ b
  pub queued : IsList t.waits e (xs ++ (s.up ∷ []))
  pub m : (t.proc s.up).m ≡ rq
  pub give : (t.proc s.up).give ≡ o
  pub label : (t.proc s.up).label ≡ Label.in_mesg
  pub pid : (t.proc s.up).pid ≡ (s.proc s.up).pid
  pub state :
      t.sched.state ≡ update (update s.sched.state s.up ProcState.block_send) b ProcState.ready
  pub others : (x : Ptr) → x ≢ s.up → t.proc x ≡ s.proc x
  pub caps : t.caps ≡ s.caps
  pub endpoint : t.endpoint ≡ s.endpoint

module _ (c : Clock) (s : Kernel) (e b : Ptr) (rq : List ℕ) (o : Option Slot) (xs : List Ptr)
    (up : s.up ≢ nil) (waits : (s.endpoint e).rwait ≡ b) (ne : b ≢ nil) (other : b ≢ s.up)
    (slice : min_time_slice < s.sched.ts b + (s.sched.ts s.up - c.passed))
    (queue : IsList s.waits e xs) (new : NotIn s.up xs) where
  -- A message to an endpoint at which another process waits, from a process that is up and not in the
  -- list of the endpoint, makes the waiting process run at once if it has more than MIN_TIME_SLICE
  -- with what the sender has left. The sender is then last in that list, sending, with its message and
  -- its capability; the messages, labels and bound signals of the other processes, the capabilities
  -- and the endpoints stay as they are.
  pub mesg-Sent : (t : Kernel) × (mesg c s e rq o ≡ ok (ok_code, t)) × Sent s e xs rq o b t
  unfolding mesg
  mesg-Sent = (
    t,
    rw waits (rw (not_nil b ne, woken c Label.in_mesg b s₂ up ne other slice)),
    record {
      up = refl;
      queued =
          subst (λ k. IsList k e (xs ++ (s.up ∷ []))) (sym (enqueue-eq-append s.waits e s.up apart))
            (append-IsList s.waits e s.up xs up new queue);
      m = ap (λ (v : Proc). v.m) mine ∙ ap (λ (v : Proc). v.m) (update-same s.proc s.up me);
      give =
          ap (λ (v : Proc). v.give) mine ∙ ap (λ (v : Proc). v.give) (update-same s.proc s.up me);
      label = ap (λ (v : Proc). v.label) mine;
      pid = ap (λ (v : Proc). v.pid) mine ∙ ap (λ (v : Proc). v.pid) (update-same s.proc s.up me);
      state = woken-state c Label.in_mesg b s₂;
      others = λ x q. update-other s₂.proc s.up x stopped q ∙ update-other s.proc s.up x me q;
      caps = refl;
      endpoint = refl;
    },
  )
    where
      me : Proc
      me = (let v = s.proc s.up in record v { m = rq; give = o })

      s₂ : Kernel
      s₂ =
          (let d = s.sched in
            record s {
              proc = update s.proc s.up me;
              sched = record d { state = update d.state s.up ProcState.block_send };
              waits = enqueue s.waits e s.up;
            })

      t : Kernel
      t = handed c Label.in_mesg b (record s₂ { sched = proc_ready s₂.sched b })

      stopped : Proc
      stopped = (let v = s₂.proc s.up in record v { label = Label.in_mesg })

      mine : t.proc s.up ≡ stopped
      mine = update-same s₂.proc s.up stopped

      apart : s.waits.tail e ≢ s.up
      apart = rw queue.tail (last-NotIn s.up nil xs (λ q. up (sym q)) new)
