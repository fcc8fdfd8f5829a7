-- ===== src/Kernel/Tests.antt =====
-- A small machine on which the results about the kernel are tried: the processes at 2000 (pid 1, up)
-- and 3000 (pid 2), an endpoint at 1000, the first one's root list at 4000 and an untyped object of
-- 8192 bytes at 8192.
use agatha.Prelude.{
  ℕ, ◌*◌, ◌↔◌, ◌<◌, ◌≡◌, refl, true, arith, update, Option, some, none, List, [], ◌∷◌,
}
use agatha.Kernel.Links.{Ptr, nil, Links, append, unlink}
use agatha.Kernel.Links.Laws.{IsList, append-IsList}
use agatha.Kernel.Links.Unlink.{unlink-IsList}
use agatha.Kernel.Sched.{
  Sched, ProcState, queue, priority_max, add_to_list_tail, remove_from_list, next_proc,
}
use agatha.Kernel.Sched.Queues.{AllQueues, add_to_list_tail-AllQueues, remove_from_list-AllQueues}
use agatha.Kernel.Sched.Outcome.{Fits, Outcome}
use agatha.Kernel.Sched.Pick.{next_proc-picks}
use agatha.Kernel.Sched.Round.{Turns}
use agatha.Kernel.State.{
  Sys, refuse, Cap, no_cap, Slot, Label, Proc, Kernel, ok, fault, ok_code, cap_at, has_write,
  obj_caplist, obj_untyped, obj_endpoint,
}
use agatha.Kernel.Caps.{find_cap}
use agatha.Kernel.Caps.Find.{InRange, Names, IsReadable, find_cap_iff}
use agatha.Kernel.Objects.{obj_split, obj_merge}
use agatha.Kernel.Objects.Untyped.{Merged, Halves, obj_merge-obj_split, obj_split-Halves}
use agatha.Kernel.Objects.Split.{split_state}
use agatha.Kernel.Run.{Clock}

abbrev no_links : Links
no_links = record { head = λ _. 0; tail = λ _. 0; next = λ _. 0; prev = λ _. 0 }

abbrev pub no_queues : Sched
no_queues = record {
  links = no_links;
  slist = λ _. nil;
  turn = λ _. 0;
  ts = λ _. 100;
  state = update (λ _. ProcState.ready) 3000 ProcState.block_recv;
  priority = λ _. 3;
}

abbrev pub a_proc : ℕ → Label → Option Slot → Proc
a_proc pid label give = record {
  pid = pid;
  label = label;
  vspace = 0;
  bound_signal = 0;
  m = 7 ∷ 8 ∷ [];
  give = give;
  cap_root = 4000;
  ret = 0;
  got = [];
  sender = 0;
}

abbrev pub slot : ℕ → Slot
slot i = record { list = 4000; index = i }

abbrev pub a_cap : ℕ → Ptr → Cap
a_cap perm obj = record { perm = perm; obj = obj }

abbrev pub machine : Kernel
machine = record {
  up = 2000;
  sched = no_queues;
  waits = no_links;
  refs = λ _. 1;
  type = update (update (λ _. obj_endpoint) 4000 obj_caplist) 8192 obj_untyped;
  len = λ _. 8192;
  caps = λ _. update (update (λ _. no_cap) 1 (a_cap 3 4000)) 2 (a_cap 3 8192);
  endpoint = λ _. record { signal = 0; bound = nil; rwait = 3000 };
  proc =
      update (λ _. a_proc 2 (Label.in_recv 1000 none) none) 2000
        (a_proc 1 Label.empty (some (slot 2)));
  frame = λ _. record { kind = 0; pa = 0; len = 0; va = 0; next = nil };
  intr = λ _. record { irqn = 0; end = nil; signal = 0 };
  nextpid = 3;
  procs = λ _. nil;
  mmu = record { ram = λ _. 0; va_next = 4096 };
}

abbrev pub clock : Clock
clock = record { systick = 100; fuel = 20; passed = 5 }

pub no_list : (l : Ptr) → IsList no_links l []
no_list l = record { head = refl; tail = refl; chain = tt; distinct = tt }

-- One process and two on the list at 1000.
abbrev pub one : Links
one = append no_links 1000 2000

pub one-IsList : IsList one 1000 (2000 ∷ [])
one-IsList = append-IsList no_links 1000 2000 [] (omega arith) tt (no_list 1000)

abbrev two : Links
two = append one 1000 3000

append-IsList_example : IsList two 1000 (2000 ∷ 3000 ∷ [])
append-IsList_example =
    append-IsList one 1000 3000 (2000 ∷ []) (omega arith) (omega arith, tt) one-IsList

two-IsList : IsList two 1000 (2000 ∷ 3000 ∷ [])
two-IsList = append-IsList one 1000 3000 (2000 ∷ []) (omega arith) (omega arith, tt) one-IsList

unlink-IsList_example : IsList (unlink two 1000 2000) 1000 (3000 ∷ [])
unlink-IsList_example = unlink-IsList two 1000 [] 2000 (3000 ∷ []) two-IsList

-- The queues of priority 3, with the two processes on the one that is current.
empty-AllQueues : AllQueues no_queues (λ _. [])
empty-AllQueues l h = record { linked = no_list l; marked = tt }

abbrev queued : Sched
queued = add_to_list_tail no_queues (queue 3 0) 2000

abbrev queued_lists : Ptr → List Ptr
queued_lists = update (λ _. []) (queue 3 0) (2000 ∷ [])

add_to_list_tail-AllQueues_example : AllQueues queued queued_lists
add_to_list_tail-AllQueues_example =
    add_to_list_tail-AllQueues no_queues (λ _. []) empty-AllQueues (queue 3 0) (omega arith) 2000
      (omega arith) refl

queued-AllQueues : AllQueues queued queued_lists
queued-AllQueues =
    add_to_list_tail-AllQueues no_queues (λ _. []) empty-AllQueues (queue 3 0) (omega arith) 2000
      (omega arith) refl

remove_from_list-AllQueues_example :
    AllQueues (remove_from_list queued (queue 3 0) 2000) (update queued_lists (queue 3 0) [])
remove_from_list-AllQueues_example =
    remove_from_list-AllQueues queued queued_lists queued-AllQueues (queue 3 0) (omega arith) []
      2000 [] refl

queued-Turns : Turns queued
unfolding add_to_list_tail
queued-Turns k = omega arith

queued-Fits : Fits 20 queued queued_lists
unfolding add_to_list_tail
queued-Fits k = ground arith

next_proc-picks_example :
    (t : Sched) × (r : Ptr) × (q' : Ptr → List Ptr) × (next_proc 100 20 queued ≡ some (t, r))
    × AllQueues t q'
    × Turns t
    × (t.state ≡ queued.state)
    × Outcome queued queued_lists priority_max t r q'
next_proc-picks_example =
    next_proc-picks 100 20 (omega arith) queued queued_lists queued-Turns queued-AllQueues
      queued-Fits

-- Capability 2 of the root list, and 1.2, which is the same one.
in_range : (cid : ℕ) → cid < 2 * 4096 → InRange machine 2000 cid
in_range cid h = record { has_root = omega arith; positive = omega arith; base = omega arith }

list-IsReadable : IsReadable machine (slot 1)
list-IsReadable = record { readable = refl; ne_nil = omega arith; is_list = refl }

find_cap_iff_example :
    (find_cap machine 2000 4098 ≡ ok (slot 2))
    ↔ (InRange machine 2000 4098 × Names machine 2000 4098 (slot 2))
find_cap_iff_example = find_cap_iff machine 2000 4098 (slot 2)

-- The root list's capability 2 has id 8192, and 3 has id 12288.
pub found_untyped : find_cap machine 2000 8192 ≡ ok (slot 2)
unfolding find_cap
found_untyped = refl

found_free : find_cap machine 2000 12288 ≡ ok (slot 3)
unfolding find_cap
found_free = refl

split : obj_split machine 8192 12288 ≡ ok (ok_code, split_state machine (slot 2) (slot 3))
unfolding obj_split find_cap
split = refl

obj_split-Halves_example :
    (c : Slot) × (nc : Slot) × (find_cap machine 2000 8192 ≡ ok c)
    × (find_cap machine 2000 12288 ≡ ok nc)
    × (has_write (cap_at machine c).perm ≡ true)
    × (machine.type (cap_at machine c).obj ≡ obj_untyped)
    × ((cap_at machine nc).perm ≡ 0)
    × (ok_code ≡ ok_code)
    × Halves machine c nc (split_state machine (slot 2) (slot 3))
obj_split-Halves_example =
    obj_split-Halves machine (split_state machine (slot 2) (slot 3)) 8192 12288 ok_code split

obj_merge-obj_split_example :
    (u : Kernel) × (obj_merge (split_state machine (slot 2) (slot 3)) 8192 12288 ≡ ok (ok_code, u))
    × Merged machine (slot 2) (slot 3) u
obj_merge-obj_split_example =
    obj_merge-obj_split machine (split_state machine (slot 2) (slot 3)) 8192 12288 ok_code (slot 2)
      (slot 3) found_untyped found_free split refl (omega arith)

-- The state that a call ends in.
unfoldable pub state_of : Sys → Kernel
state_of (ok r) = r.1
state_of refuse = machine
state_of fault = machine
