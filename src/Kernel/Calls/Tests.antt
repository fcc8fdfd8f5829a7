-- ===== src/Kernel/Calls/Tests.antt =====
-- System calls on the small machine.
use agatha.Prelude.{◌≢◌, ◌≤◌, ℕ, ◌<◌, ◌≡◌, refl, update, [], ◌∷◌}
use agatha.Kernel.Links.{Ptr, append, enqueue}
use agatha.Kernel.Sched.{add_to_list_tail}
use agatha.Kernel.Caps.Slots.{SameSlot}
use agatha.Kernel.Objects.{obj_retype, obj_size, obj_init, endpoint_init}
use agatha.Kernel.Objects.Retype.{obj_retype-type}
use agatha.Kernel.Calls.{endpoint_connect, find_endpoint, given_slot, sys_mesg, may_either}
use agatha.Kernel.Calls.Authority.{Holds, endpoint_connect-Holds}
use agatha.Kernel.State.{
  obj_type_n, set_cap, cap_write, no_cap, Slot, Kernel, ok, ok_code, cap_at, obj_untyped,
}
use agatha.Kernel.Caps.{find_cap}
use agatha.Kernel.Run.{charge, choose, schedule, proc_ready}
use agatha.Kernel.Ipc.{mesg}
use agatha.Kernel.Tests.{a_cap, machine, clock, state_of}

-- The untyped object becomes an endpoint.
retyped : Kernel
unfolding state_of
retyped = state_of (obj_retype 100 machine 8192 1 1)

retypes : obj_retype 100 machine 8192 1 1 ≡ ok (ok_code, retyped)
unfolding retyped state_of obj_retype find_cap obj_size obj_init endpoint_init
retypes = refl

obj_retype-type_example :
    (c : Slot) × (len : ℕ) × (find_cap machine 2000 8192 ≡ ok c)
    × ((cap_at machine c).perm ≢ 0)
    × (machine.type (cap_at machine c).obj ≡ obj_untyped)
    × (obj_size 1 1 ≡ ok len)
    × (len ≢ 0)
    × (len ≤ machine.len (cap_at machine c).obj)
    × (1 < obj_type_n)
    × (ok_code ≡ ok_code)
    × (retyped.type ≡ update machine.type (cap_at machine c).obj 1)
obj_retype-type_example = obj_retype-type 100 machine retyped 8192 1 1 ok_code retypes

-- With a capability 4 to the endpoint that may be read and written.
abbrev serving : Kernel
serving = record machine {
  caps = λ _.
      update (update (update (λ _. no_cap) 1 (a_cap 3 4000)) 2 (a_cap 3 8192)) 4 (a_cap 3 1000);
}

connected : Kernel
unfolding state_of
connected = state_of (endpoint_connect serving 16384 12288)

connects : endpoint_connect serving 16384 12288 ≡ ok (ok_code, connected)
unfolding connected state_of endpoint_connect find_endpoint find_cap
connects = refl

endpoint_connect-Holds_example :
    (e : Ptr) × (n : Slot) × Holds serving 16384 may_either e
    × (find_cap serving 2000 12288 ≡ ok n)
    × ((cap_at serving n).perm ≡ 0)
    × (ok_code ≡ ok_code)
    × (connected ≡ set_cap serving n (record { perm = cap_write; obj = e }))
    × (cap_at connected n ≡ record { perm = cap_write; obj = e })
    × ((d : Slot) → ¬ (SameSlot d n) → cap_at connected d ≡ cap_at serving d)
endpoint_connect-Holds_example =
    endpoint_connect-Holds serving connected 16384 12288 ok_code connects

sent_by_id : Kernel
unfolding state_of
sent_by_id = state_of (sys_mesg clock serving 16384 (9 ∷ []) 0)

sends_by_id : sys_mesg clock serving 16384 (9 ∷ []) 0 ≡ ok (ok_code, sent_by_id)
unfolding sent_by_id state_of sys_mesg find_endpoint given_slot find_cap mesg enqueue proc_ready
    add_to_list_tail append charge choose schedule
sends_by_id = refl
