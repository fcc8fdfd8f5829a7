-- ===== src/Kernel/Calls.antt =====
-- The system calls of sys/sys.c on endpoints and processes: the checks on the caller's capabilities
-- and what is done when they pass.
pub mod Authority
pub mod Tests
use agatha.Prelude.{ℕ, ◌&&◌, ◌||◌, ◌==◌, not, if◌then◌else◌, Option, none, some, List}
use agatha.Kernel.Links.{Ptr, nil}
use agatha.Kernel.State.{
  no_cap, Slot, Label, Kernel, Check, ok, refuse, fault, ◌>>=◌, ◌>>◌, check, Sys, ok_code, err_code,
  cap_at, set_cap, has_read, has_write, cap_write, cap_read_write, type_of, obj_endpoint,
  obj_caplist, obj_proc, obj_frame,
}
use agatha.Kernel.Caps.{find_cap}
use agatha.Kernel.Run.{Clock, proc_ready, proc_fault, proc_set_priority, schedule}
use agatha.Kernel.Ipc.{recv, reply, mesg, signal, set_endpoint, set_proc}

-- The endpoint that the caller's capability leads to, if the permission is enough.
unfoldable pub find_endpoint : Kernel → ℕ → (ℕ → Check (Unit {0})) → Check Ptr
find_endpoint s cid allowed = do
  c ← find_cap s s.up cid
  let v = cap_at s c
  allowed v.perm
  t ← type_of s v
  check (t == obj_endpoint)
  ok v.obj

abbrev pub may_read : ℕ → Check (Unit {0})
may_read perm = check (has_read perm)

abbrev pub may_write : ℕ → Check (Unit {0})
may_write perm = check (has_write perm)

abbrev pub may_either : ℕ → Check (Unit {0})
may_either perm = check (has_read perm || has_write perm)

-- The place for a capability that `recv` may get: none for id 0, else a free one.
unfoldable pub free_slot : Kernel → ℕ → Check (Option Slot)
free_slot s cid =
    if cid == 0
    then ok none
    else (do o ← find_cap s s.up cid; check ((cap_at s o).perm == 0); ok (some o))

-- The capability that `mesg` names: none for id 0.
unfoldable pub given_slot : Kernel → ℕ → Check (Option Slot)
given_slot s cid = if cid == 0 then ok none else (do o ← find_cap s s.up cid; ok (some o))

-- The capability that `reply` names: none for id 0 and for one that is free.
unfoldable pub offered_slot : Kernel → ℕ → Check (Option Slot)
offered_slot s cid =
    if cid == 0
    then ok none
    else (do o ← find_cap s s.up cid; if (cap_at s o).perm == 0 then ok none else ok (some o))

unfoldable pub sys_recv : Clock → Kernel → (from cid : ℕ) → Sys
sys_recv c s from cid = do e ← find_endpoint s from may_read; o ← free_slot s cid; recv c s e o

unfoldable pub sys_mesg : Clock → Kernel → (to : ℕ) → (rq : List ℕ) → (cid : ℕ) → Sys
sys_mesg c s to rq cid = do e ← find_endpoint s to may_write; o ← given_slot s cid; mesg c s e rq o

unfoldable pub sys_reply : Clock → Kernel → (to pid : ℕ) → (m : List ℕ) → (cid : ℕ) → Sys
sys_reply c s to pid m cid = do
  e ← find_endpoint s to may_read
  o ← offered_slot s cid
  reply c s e pid m o

unfoldable pub sys_signal : Clock → Kernel → (to v : ℕ) → Sys
sys_signal c s to v = do e ← find_endpoint s to may_write; signal c s e v

-- `sys_endpoint_connect`: a capability that may only write.
unfoldable pub endpoint_connect : Kernel → (cid nid : ℕ) → Sys
endpoint_connect s cid nid = do
  l ← find_endpoint s cid may_either
  n ← find_cap s s.up nid
  check ((cap_at s n).perm == 0)
  ok (ok_code, set_cap s n (record { perm = cap_write; obj = l }))

-- `sys_endpoint_bind`
unfoldable pub endpoint_bind : Kernel → (cid : ℕ) → Sys
endpoint_bind s cid = do
  l ← find_endpoint s cid may_either
  let v = s.endpoint l
  check (v.bound == nil)
  ok (ok_code, set_endpoint s l (record v { bound = s.up }))

-- `sys_endpoint_unbind`
unfoldable pub endpoint_unbind : Kernel → (cid : ℕ) → Sys
endpoint_unbind s cid = do
  l ← find_endpoint s cid may_either
  let v = s.endpoint l
  check (v.bound == s.up)
  ok (ok_code, set_endpoint s l (record v { bound = nil }))

unfoldable pub sys_yield : Clock → Kernel → Sys
sys_yield c s = do t ← schedule c Label.in_return nil s; ok (ok_code, t)

unfoldable pub sys_pid : Kernel → Sys
sys_pid s = ok ((s.proc s.up).pid, s)

-- `sys_exit`; it panics if the process ever comes back.
unfoldable pub sys_exit : Clock → Kernel → Sys
sys_exit c s = do
  t ← schedule c Label.in_exit nil (record s { sched = proc_fault s.sched s.up })
  ok (ok_code, t)

-- The process object that a capability leads to, where any permission is enough.
unfoldable pub find_process : Kernel → ℕ → Check Ptr
find_process s cid = do
  c ← find_cap s s.up cid
  let v = cap_at s c
  check (not (v.perm == 0))
  t ← type_of s v
  check (t == obj_proc)
  ok v.obj

-- An object of the type that the caller may read and write.
unfoldable pub find_owned : Kernel → ℕ → (type : ℕ) → Check Slot
find_owned s cid type = do
  c ← find_cap s s.up cid
  let v = cap_at s c
  check (has_write v.perm && has_read v.perm)
  t ← type_of s v
  check (t == type)
  ok c

-- `return ERR` after a write to the state.
abbrev pub or_error : Kernel → Sys → Sys
or_error s (ok r) = ok r
or_error s refuse = ok (err_code, s)
or_error s fault = fault

abbrev index : Ptr → ℕ → Slot
index l i = record { list = l; index = i }

-- The writes of `sys_proc_setup` once all is found: the new root list gets itself, the address space and
-- the parent's endpoint, and the caller loses the three.
unfoldable pub install : Kernel → Ptr → (v r e : Slot) → Kernel
install s o v r e =
    let root = (cap_at s r).obj in
    let me = s.proc o in
    let s₀ = set_proc s o (record me { cap_root = root }) in
    let s₁ =
      set_cap s₀ (index root 0) (record { perm = cap_read_write; obj = (cap_at s₀ r).obj }) in
    let s₂ =
      set_cap s₁ (index root 2) (record { perm = cap_read_write; obj = (cap_at s₁ v).obj }) in
    let s₃ = set_cap s₂ (index root 1) (record { perm = cap_write; obj = (cap_at s₂ e).obj }) in
    set_cap (set_cap (set_cap s₃ v no_cap) r no_cap) e no_cap

-- `sys_proc_setup`: the address space is written before the other capabilities are looked up.
unfoldable pub proc_setup : Kernel → (cid vspace clist p_eid : ℕ) → Sys
proc_setup s cid vspace clist p_eid = do
  o ← find_process s cid
  v ← find_owned s vspace obj_frame
  let me = s.proc o
  let s₁ = set_proc s o (record me { vspace = (s.frame (cap_at s v).obj).pa })
  or_error s₁ (do
    r ← find_owned s₁ clist obj_caplist
    e ← find_cap s₁ s₁.up p_eid
    check (has_write (cap_at s₁ e).perm)
    t ← type_of s₁ (cap_at s₁ e)
    check (t == obj_endpoint)
    ok ((s₁.proc o).pid, install s₁ o v r e))

-- `sys_proc_set_priority`
unfoldable pub sys_set_priority : Kernel → (cid priority : ℕ) → Sys
sys_set_priority s cid priority = do
  o ← find_process s cid
  d ← proc_set_priority s.sched o priority
  ok (ok_code, record s { sched = d })

-- `sys_proc_start`, which does not test the permission.
unfoldable pub proc_start : Kernel → (cid pc sp : ℕ) → Sys
proc_start s cid pc sp = do
  c ← find_cap s s.up cid
  let v = cap_at s c
  t ← type_of s v
  check (t == obj_proc)
  let p = s.proc v.obj
  let s' = set_proc s v.obj (record p { label = Label.start pc sp })
  ok (ok_code, record s' { sched = proc_ready s'.sched v.obj })
