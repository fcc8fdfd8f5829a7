-- ===== src/Kernel/Ipc/Receive.antt =====
-- `recv` when a message is there, and again when its process comes back from waiting for one.
use agatha.Prelude.{
  ◌<◌, ◌≡◌, ◌≢◌, refl, ap, true, false, update-same, Option, none, List, ◌∷◌, ◌++◌, length, All,
}
use agatha.Kernel.Links.{Ptr, nil}
use agatha.Kernel.Links.Laws.{IsList}
use agatha.Kernel.State.{Slot, Label, Endpoint, Kernel, ok, ok_code}
use agatha.Kernel.Run.{Clock}
use agatha.Kernel.Ipc.{is_sending, recv_round, resume, set_endpoint}
use agatha.Kernel.Ipc.Pending.{Taken, get_pending-Taken}

-- What a receiver has after it has got the message of `p`.
pub record Received (s : Kernel) (e p : Ptr) (u : Kernel) : Type 0 where
  pub taken : Taken s p u
  pub caps : u.caps ≡ s.caps
  pub none_waits : (u.endpoint e).rwait ≡ nil

module _ (c : Clock) (s : Kernel) (e : Ptr) (xs : List Ptr) (p : Ptr) (ys : List Ptr)
    (no_signal : (s.proc s.up).bound_signal ≡ 0) (quiet : (s.endpoint e).signal ≡ 0)
    (waiting : IsList s.waits e (xs ++ (p ∷ ys)))
    (before : All (λ x. is_sending (s.sched.state x) ≡ false) xs)
    (sends : is_sending (s.sched.state p) ≡ true) (enough : length (xs ++ (p ∷ ys)) < c.fuel)
    (ne : p ≢ nil) (no_give : (s.proc p).give ≡ none) (o : Option Slot) where
  -- A round of recv by a process with no bound signal, at an endpoint with no signal, with a process
  -- in its list that is sending no capability and none before it that is sending, returns OK with the
  -- message and pid of that process, clears rwait and changes no list or capability.
  pub recv_round-Received : (u : Kernel) × (recv_round c s e o ≡ ok (ok_code, u)) × Received s e p u
  unfolding recv_round
  recv_round-Received =
      let (t, got, taken, caps, ends) =
        get_pending-Taken c.fuel s e xs p ys quiet waiting before sends enough o ne no_give in
      let v : Endpoint = (let v = t.endpoint e in record v { rwait = nil }) in
      (
        set_endpoint t e v,
        rw (no_signal, recv_round) (rw (got, recv_round) refl),
        record {
          taken = record {
            got = taken.got;
            sender = taken.sender;
            state = taken.state;
            waits = taken.waits;
            up = taken.up;
            others = taken.others;
          };
          caps = caps;
          none_waits = ap (λ (v : Endpoint). v.rwait) (update-same t.endpoint e v);
        },
      )

-- A process that has waited in `recv` and comes back takes up the loop again.
pub resume-in_recv :
    (c : Clock) (s : Kernel) (e : Ptr) (o : Option Slot)
    → (s.proc s.up).label ≡ Label.in_recv e o
    → resume c s
      ≡ recv_round c (set_endpoint s e (let v = s.endpoint e in record v { rwait = nil })) e o
unfolding resume
resume-in_recv c s e o h = rw (h, resume) refl
