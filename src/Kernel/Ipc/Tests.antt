-- ===== src/Kernel/Ipc/Tests.antt =====
-- Messages between the two processes of the small machine.
use agatha.Prelude.{◌+◌, ◌-◌, ◌<◌, ◌≡◌, refl, true, arith, update, some, none, [], ◌∷◌}
use agatha.Kernel.Links.{append, enqueue}
use agatha.Kernel.Links.Laws.{IsList}
use agatha.Kernel.Sched.{ProcState, add_to_list_tail}
use agatha.Kernel.State.{Label, Kernel, ok, ok_code}
use agatha.Kernel.Ipc.RoundTrip.{served, mesg-reply-round_trip}
use agatha.Kernel.Run.{charge, choose, schedule, proc_ready}
use agatha.Kernel.Ipc.{recv_round, reply, resume, take_message, walk, mesg, get_pending}
use agatha.Kernel.Ipc.Pending.{Taken, CapMoved, get_pending-Taken, get_pending-CapMoved}
use agatha.Kernel.Ipc.Call.{Sent, mesg-Sent}
use agatha.Kernel.Tests.{no_queues, a_proc, slot, machine, clock, no_list, one, one-IsList}

-- The first process sends, and the second one, which waits, runs.
mesg-Sent_example :
    (t : Kernel) × (mesg clock machine 1000 (9 ∷ []) none ≡ ok (ok_code, t))
    × Sent machine 1000 [] (9 ∷ []) none 3000 t
mesg-Sent_example =
    mesg-Sent clock machine 1000 3000 (9 ∷ []) none [] (omega arith) refl (omega arith)
      (omega arith) (omega arith) (no_list 1000) tt

-- The second process is up, and the first one is sending, with capability 2 to give.
abbrev sending : Kernel
sending = record machine {
  up = 3000;
  waits = one;
  sched = record no_queues { state = update (λ _. ProcState.ready) 2000 ProcState.block_send };
}

abbrev sending_none : Kernel
sending_none = record sending { proc = update sending.proc 2000 (a_proc 1 Label.in_mesg none) }

get_pending-Taken_example :
    (t : Kernel) × (get_pending 20 sending_none 1000 none ≡ ok (t, true))
    × Taken sending_none 2000 t
    × (t.caps ≡ sending_none.caps)
    × (t.endpoint ≡ sending_none.endpoint)
get_pending-Taken_example =
    get_pending-Taken 20 sending_none 1000 [] 2000 [] refl one-IsList tt refl (omega arith) none
      (omega arith) refl

get_pending-CapMoved_example :
    (t : Kernel) × (get_pending 20 sending 1000 (some (slot 3)) ≡ ok (t, true))
    × Taken sending 2000 t
    × CapMoved sending (slot 2) (slot 3) t
get_pending-CapMoved_example =
    get_pending-CapMoved 20 sending 1000 [] 2000 [] refl one-IsList tt refl (omega arith) (slot 2)
      (slot 3) (omega arith) refl (omega arith) (λ h. absurd (omega (arith, h.1)))

-- The first process sends, the second one takes the message, and both have more than MIN_TIME_SLICE.
left :
    let u = served clock clock machine 1000 (9 ∷ []) in
    10 < u.sched.ts 2000 + (u.sched.ts 3000 - clock.passed)
unfolding mesg enqueue proc_ready add_to_list_tail append charge choose schedule resume recv_round
    get_pending walk take_message
left = omega arith

mesg-reply-round_trip_example :
    (t : Kernel) × (u : Kernel) × (w : Kernel) × (z : Kernel) × (mesg clock machine 1000
        (9 ∷ [])
        none
      ≡ ok (ok_code, t))
    × (resume clock t ≡ ok (ok_code, u))
    × ((u.proc 3000).got ≡ 9 ∷ [])
    × ((u.proc 3000).sender ≡ 1)
    × (reply clock u 1000 ((u.proc 3000).sender) (5 ∷ []) none ≡ ok (ok_code, w))
    × (resume clock w ≡ ok (ok_code, z))
    × (z.up ≡ 2000)
    × ((z.proc 2000).got ≡ 5 ∷ [])
    × IsList z.waits 1000 []
mesg-reply-round_trip_example =
    mesg-reply-round_trip clock clock machine 1000 3000 (9 ∷ []) (5 ∷ []) none [] (omega arith) refl
      (omega arith) (omega arith) (omega arith) (no_list 1000) tt tt refl refl refl tt tt
      (omega arith) left

-- The first process waits for a reply of the second one.
abbrev awaiting : Kernel
awaiting = record sending {
  sched = record no_queues { state = update (λ _. ProcState.ready) 2000 ProcState.block_reply };
}
