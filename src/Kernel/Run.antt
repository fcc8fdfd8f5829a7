-- ===== src/Kernel/Run.antt =====
-- Running processes: `schedule`, `proc_ready`, `proc_fault`, `proc_free`, `proc_set_priority` and
-- `find_proc` of sys/proc.c. A call of `schedule` ends the step of the process that makes it: its label
-- says where it goes on, and `up` is the process that runs next.
pub mod Direct
use agatha.Prelude.{
  ℕ, ◌+◌, ◌-◌, ◌%◌, ◌^◌, Bool, true, false, not, ◌&&◌, ltb, ◌==◌, if◌then◌else◌, update, Option,
  none, some,
}
use agatha.Kernel.Links.{Ptr, nil}
use agatha.Kernel.Sched.{
  Sched, ProcState, is_ready, min_time_slice, priority_max, current, other, add_to_list_tail,
  remove_from_list, next_proc,
}
use agatha.Kernel.State.{Label, Kernel, Check, ok, refuse, fault, max_procs}

-- The build's SYSTICK, the fuel for walks over queues, and the ticks that have passed since the process
-- was given the processor (`systick_passed`, read from the timer).
pub record Clock : Type 0 where
  pub systick : ℕ
  pub fuel : ℕ
  pub passed : ℕ

-- `proc_ready`
unfoldable pub proc_ready : Sched → Ptr → Sched
proc_ready d p =
    let d' = record d { state = update d.state p ProcState.ready } in
    if d'.slist p == nil then add_to_list_tail d' (other d' (d'.priority p)) p else d'

-- `proc_free`, and the list part of `proc_fault`.
unfoldable pub proc_free : Sched → Ptr → Sched
proc_free d p = if d.slist p == nil then d else remove_from_list d (d.slist p) p

-- `proc_fault`
unfoldable pub proc_fault : Sched → Ptr → Sched
unfolding proc_free
proc_fault d p = proc_free (record d { state = update d.state p ProcState.fault }) p

-- `proc_set_priority`: the bound is PRIORITY_MAX itself, which is no index of `ready`.
unfoldable pub proc_set_priority : Sched → Ptr → ℕ → Check Sched
proc_set_priority d p priority =
    let capped = if ltb priority_max priority then priority_max else priority in
    let d' = record d { priority = update d.priority p capped } in
    let d'' = remove_from_list d' (d'.slist p) p in
    if d'.slist p == nil
    then ok d'
    else (if capped == priority_max
        then fault
        else ok (add_to_list_tail d'' (other d'' (d''.priority p)) p))

-- `find_proc` on an `int`, as its bit pattern.
unfoldable pub find_proc : Kernel → ℕ → Ptr
find_proc s pid = if ltb pid (2 ^ 31) && ltb pid max_procs then s.procs pid else nil

-- The first part of `schedule` where a process is up: its slice is charged, what is left is given to
-- `n`, and it goes to the end of its queue if it may go on.
unfoldable pub charge : ℕ → Sched → (up n : Ptr) → Sched
charge passed d up n =
    let d₁ = record d { ts = update d.ts up (d.ts up - passed) } in
    let d₂ = if n == nil then d₁ else record d₁ { ts = update d₁.ts n (d₁.ts n + d₁.ts up) } in
    if not (is_ready (d₂.state up))
    then record d₂ { ts = update d₂.ts up 0 }
    else if d₂.slist up == nil
    then add_to_list_tail d₂ (current d₂ (d₂.priority up)) up
    else d₂

-- The second part: which process is up next.
unfoldable pub choose : (systick fuel : ℕ) → Sched → (n : Ptr) → Option (Sched × Ptr)
choose systick fuel d n =
    if not (n == nil) && is_ready (d.state n)
    then (if ltb min_time_slice (d.ts n)
        then some (d, n)
        else if d.slist n == nil
        then next_proc systick fuel (add_to_list_tail d (other d (d.priority n)) n)
        else next_proc systick fuel d)
    else next_proc systick fuel d

-- `schedule(n)`, called at `label`. It panics if no process can run.
unfoldable pub schedule : Clock → Label → Ptr → Kernel → Check Kernel
schedule c label n s =
    let d = if s.up == nil then s.sched else charge c.passed s.sched s.up n in
    let mine = s.proc s.up in
    let saved =
      if s.up == nil then s.proc else update s.proc s.up (record mine { label = label }) in
    elim (choose c.systick c.fuel d n) [
      | none ↦ fault
      | some (d', p) ↦
          if p == nil then fault else ok (record s { sched = d'; proc = saved; up = p })
    ]
