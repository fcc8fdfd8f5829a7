-- ===== src/Kernel/Sched.antt =====
-- The scheduler of sys/proc.c: the ready queues, two for each priority, and the choice of the next
-- process. Time slices are non-negative, since `schedule` sets one that would be negative to 0.
pub mod Queues
pub mod Scan
pub mod Round
pub mod Outcome
pub mod Pick
use agatha.Prelude.{
  ℕ, zero, suc, ◌+◌, ◌*◌, ◌%◌, Bool, true, false, Option, none, some, ltb, ◌==◌, ◌&&◌,
  if◌then◌else◌, update,
}
use agatha.Kernel.Links.{Ptr, nil, Links, append, unlink}

-- `procstate_t`
pub data ProcState : Type 0 where
  fault ready block_recv block_send block_reply : ProcState

-- `state == PROC_ready`
abbrev pub is_ready : ProcState → Bool
is_ready ready = true
is_ready fault = false
is_ready block_recv = false
is_ready block_send = false
is_ready block_reply = false

abbrev pub min_time_slice : ℕ
min_time_slice = 10

abbrev pub priority_max : ℕ
priority_max = 16

-- The static `ready`, and the fields of the processes that the scheduler works on. `slist` is
-- nil for a process on no queue.
pub record Sched : Type 0 where
  pub links : Links
  pub slist : Ptr → Ptr
  pub turn : ℕ → ℕ  -- `ready[i].q`
  pub ts : Ptr → ℕ
  pub state : Ptr → ProcState
  pub priority : Ptr → ℕ

-- `&ready[i].queue[j]`
abbrev pub queue : ℕ → ℕ → Ptr
queue i j = i * 2 + j + 1

-- `&ready[i].queue[ready[i].q]`, and the other queue of the pair.
abbrev pub current : Sched → ℕ → Ptr
current s i = queue i (s.turn i)

abbrev pub other : Sched → ℕ → Ptr
other s i = queue i ((s.turn i + 1) % 2)

unfoldable pub add_to_list_tail : Sched → Ptr → Ptr → Sched
add_to_list_tail s l p = record s { slist = update s.slist p l; links = append s.links l p }

unfoldable pub remove_from_list : Sched → Ptr → Ptr → Sched
remove_from_list s l p = record s { slist = update s.slist p nil; links = unlink s.links l p }

-- `p->state == PROC_ready && p->ts > MIN_TIME_SLICE`
abbrev pub takes : Sched → Ptr → Bool
takes s p = is_ready (s.state p) && ltb min_time_slice (s.ts p)

-- What `next_proc` does with a process that it does not take.
unfoldable pub pass_over : Sched → ℕ → Ptr → Sched
pass_over s i p =
    let s' = remove_from_list s (current s i) p in
    if is_ready (s.state p) then add_to_list_tail s' (other s i) p else s'

-- The inner loop of `next_proc` at priority `i`; `none` is out of fuel.
unfoldable pub scan : ℕ → Sched → ℕ → Ptr → Option (Sched × Ptr)
scan zero s i p = none
scan (suc fuel) s i p =
    let rest = scan fuel (pass_over s i p) i (s.links.next p) in
    if p == nil then some (s, nil) else if takes s p then some (s, p) else rest

-- `for (p = head; p != nil; p = p->snext) p->ts = SYSTICK;`
unfoldable pub refill : ℕ → ℕ → Sched → Ptr → Option Sched
refill systick zero s p = none
refill systick (suc fuel) s p =
    let rest = refill systick fuel (record s { ts = update s.ts p systick }) (s.links.next p) in
    if p == nil then some s else rest

-- `ready[q].q = (ready[q].q + 1) % 2`
abbrev pub switch_queues : Sched → ℕ → Sched
switch_queues s i = record s { turn = update s.turn i ((s.turn i + 1) % 2) }

-- The queues of a priority change places, and the processes of the new one get a full slice.
unfoldable pub turn_over : (systick fuel : ℕ) → Sched → ℕ → Option Sched
unfolding refill
turn_over systick fuel s i =
    let t = switch_queues s i in refill systick fuel t (t.links.head (current t i))

-- The outer loop of `next_proc` from priority `i - 1` down: `fuel` bounds the walks over a queue and
-- the first argument the rounds. SYSTICK is a parameter of the build.
unfoldable pub pick : ℕ → (systick fuel : ℕ) → Sched → ℕ → Option (Sched × Ptr)
pick rounds systick fuel s zero = some (s, nil)
pick zero systick fuel s (suc i) = none
pick (suc rounds) systick fuel s (suc i) = elim (scan fuel s i (s.links.head (current s i))) [
  | none ↦ none
  | some (s', p) ↦ elim (p == nil) [
    | false ↦ some (s', p)
    | true ↦ elim (turn_over systick fuel s' i) [
      | none ↦ none
      | some t ↦ pick rounds systick fuel t (if t.links.head (current t i) == nil then i else suc i)
    ]
  ]
]

-- `next_proc`: two rounds suffice for each priority.
unfoldable pub next_proc : (systick fuel : ℕ) → Sched → Option (Sched × Ptr)
unfolding pick scan turn_over
next_proc systick fuel s = pick (2 * priority_max) systick fuel s priority_max
