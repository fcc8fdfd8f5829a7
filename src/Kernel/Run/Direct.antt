-- ===== src/Kernel/Run/Direct.antt =====
-- `schedule(n)` where `n` is ready and has time left: the caller stops at its label and `n` runs.
use agatha.Prelude.{
  ℕ, ◌+◌, ◌-◌, ◌<◌, ◌≡◌, ◌≢◌, ap, ◌∙◌, true, false, lt→ltb, ◌==◌, arith, update, some,
}
use agatha.Kernel.Links.{Ptr, nil}
use agatha.Kernel.Sched.{Sched, ProcState, is_ready, min_time_slice, add_to_list_tail}
use agatha.Kernel.State.{Label, Kernel, ok}
use agatha.Kernel.Run.{Clock, charge, choose, schedule, proc_ready}

module _ (passed : ℕ) (d : Sched) (up n : Ptr) where
  pub charge-state : (charge passed d up n).state ≡ d.state
  unfolding charge add_to_list_tail
  charge-state = ground arith

  pub charge-priority : (charge passed d up n).priority ≡ d.priority
  unfolding charge add_to_list_tail
  charge-priority = ground arith

  -- The time that the caller has left goes to `n`.
  pub charge-ts : n ≢ nil → n ≢ up → (charge passed d up n).ts n ≡ d.ts n + (d.ts up - passed)
  unfolding charge add_to_list_tail
  charge-ts h ne = ground arith

-- The state in which `n` runs.
abbrev pub handed : Clock → Label → Ptr → Kernel → Kernel
handed c label n s =
    let mine = s.proc s.up in
    record s {
      sched = charge c.passed s.sched s.up n;
      proc = update s.proc s.up (record mine { label = label });
      up = n;
    }

choose-given :
    (systick fuel : ℕ) (d : Sched) (n : Ptr)
    → n ≢ nil
    → is_ready (d.state n) ≡ true
    → min_time_slice < d.ts n
    → choose systick fuel d n ≡ some (d, n)
unfolding choose
choose-given systick fuel d n h ready slice =
    let full : (n == nil) ≡ false = ground arith in rw (full, ready, lt→ltb _ _ slice)

pub schedule-handed :
    (c : Clock) (label : Label) (n : Ptr) (s : Kernel)
    → s.up ≢ nil
    → n ≢ nil
    → n ≢ s.up
    → is_ready (s.sched.state n) ≡ true
    → min_time_slice < s.sched.ts n + (s.sched.ts s.up - c.passed)
    → schedule c label n s ≡ ok (handed c label n s)
unfolding schedule
schedule-handed c label n s up ne other ready slice =
    let up_some : (s.up == nil) ≡ false = ground arith in
    let n_some : (n == nil) ≡ false = ground arith in
    let d = charge c.passed s.sched s.up n in
    let st : is_ready (d.state n) ≡ true =
      ap (λ f. is_ready (f n)) (charge-state c.passed s.sched s.up n) ∙ ready in
    let slice' : min_time_slice < d.ts n = rw (charge-ts c.passed s.sched s.up n ne other) slice in
    rw (up_some, schedule)
      (rw (choose-given c.systick c.fuel d n ne st slice', schedule) (rw (n_some, up_some)))

module _ (d : Sched) (p : Ptr) where
  pub proc_ready-state : (proc_ready d p).state ≡ update d.state p ProcState.ready
  unfolding proc_ready add_to_list_tail
  proc_ready-state = ground arith

  pub proc_ready-ts : (proc_ready d p).ts ≡ d.ts
  unfolding proc_ready add_to_list_tail
  proc_ready-ts = ground arith
