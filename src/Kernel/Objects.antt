-- ===== src/Kernel/Objects.antt =====
-- Untyped objects and what they are turned into: `sys_obj_retype`, `sys_obj_split` and `sys_obj_merge`
-- of sys/sys.c, with the size and set-up functions of each type. Sizes are those of 32-bit ARM.
pub mod Split
pub mod Untyped
pub mod Retype
use agatha.Prelude.{
  ℕ, ◌+◌, ◌/◌, ◌^◌, Bool, true, false, not, ◌&&◌, ltb, leb, ◌==◌, if◌then◌else◌, update, List, [],
  Option, none, some,
}
use agatha.Kernel.Links.{Ptr, nil}
use agatha.Kernel.Sched.{Sched, ProcState}
use agatha.Kernel.State.{
  Cap, no_cap, Slot, Label, Endpoint, Proc, Frame, Intr, Kernel, Check, ok, refuse, fault, ◌>>=◌,
  ◌>>◌, check, safe, Sys, ok_code, cap_at, set_cap, has_write, cap_read_write, type_of, obj_untyped,
  obj_endpoint, obj_caplist, obj_proc, obj_intr, obj_frame, obj_type_n, clist_caps, max_procs,
}
use agatha.Kernel.Caps.{find_cap, find_both}

-- `sizeof(obj_untyped_t)`
abbrev pub untyped_size : ℕ
untyped_size = 12

-- `obj_untyped_size`
abbrev pub obj_untyped_size : ℕ → ℕ
obj_untyped_size n = if ltb n untyped_size then 0 else n

-- `obj_endpoint_size`, `obj_caplist_size` and `obj_proc_size`, by the size of the struct.
abbrev pub one_of : ℕ → ℕ → ℕ
one_of size n = if n == 1 then size else 0

-- `obj_size_funcs[type](n)`; the array has `OBJ_type_n` entries.
unfoldable pub obj_size : ℕ → ℕ → Check ℕ
obj_size type n =
    if type == obj_untyped
    then ok (obj_untyped_size n)
    else if type == obj_endpoint
    then ok (one_of 28 n)
    else if type == obj_caplist
    then ok (one_of 4088 n)
    else if type == obj_proc
    then ok (one_of 1224 n)
    else if type == obj_intr
    then ok 20
    else if type == obj_frame
    then ok 28
    else fault

-- `obj_endpoint_init`: the object's own list of waiting processes is emptied.
unfoldable pub endpoint_init : Kernel → Ptr → Kernel
endpoint_init s o =
    let none_waiting : Endpoint = record { signal = 0; bound = nil; rwait = nil } in
    let w = s.waits in
    record s {
      endpoint = update s.endpoint o none_waiting;
      waits = record w { head = update w.head o nil; tail = update w.tail o nil };
    }

-- `obj_caplist_init` clears the first 255 of the 510 capabilities.
unfoldable pub caplist_init : Kernel → Ptr → Kernel
caplist_init s o = record s {
  caps = update s.caps o (λ i. if ltb i 255 then no_cap else s.caps o i);
}

-- The part of `proc_init` that the scheduler keeps; `obj_proc_init` has zeroed all the rest.
abbrev proc_sched : ℕ → Sched → Ptr → Sched
proc_sched systick d p =
    let k = d.links in
    record d {
      links = record k { next = update k.next p nil; prev = update k.prev p nil };
      slist = update d.slist p nil;
      ts = update d.ts p systick;
      state = update d.state p ProcState.fault;
      priority = update d.priority p 0;
    }

abbrev fresh_proc : ℕ → Proc
fresh_proc pid = record {
  pid = pid;
  label = Label.empty;
  vspace = 0;
  bound_signal = 0;
  m = [];
  give = none;
  cap_root = nil;
  ret = 0;
  got = [];
  sender = 0;
}

-- `obj_proc_init` and `proc_init`: the next pid, an index into `procs`, is not tested.
unfoldable pub proc_init : ℕ → Kernel → Ptr → Check Kernel
proc_init systick s p = do
  safe (ltb s.nextpid max_procs)
  let w = s.waits
  ok (record s {
    sched = proc_sched systick s.sched p;
    waits = record w { next = update w.next p nil; prev = update w.prev p nil };
    proc = update s.proc p (fresh_proc s.nextpid);
    nextpid = s.nextpid + 1;
    procs = update s.procs s.nextpid p;
  })

-- `obj_init_funcs[type](up, o, n)`
unfoldable pub obj_init : ℕ → ℕ → Kernel → Ptr → ℕ → Check Kernel
unfolding endpoint_init caplist_init proc_init
obj_init systick type s o n =
    if type == obj_untyped
    then ok (record s { len = update s.len o n })
    else if type == obj_endpoint
    then ok (endpoint_init s o)
    else if type == obj_caplist
    then ok (caplist_init s o)
    else if type == obj_proc
    then proc_init systick s o
    else if type == obj_intr
    then ok (record s { intr = update s.intr o (record { irqn = 0; end = nil; signal = 0 }) })
    else if type == obj_frame
    then (let f = s.frame o in
        ok (record s { frame = update s.frame o (record f { kind = 0; pa = 0; len = 0 }) }))
    else fault

-- `o->h.type = type; o->h.refs = 1;`
abbrev pub set_head : Kernel → Ptr → ℕ → Kernel
set_head s o type = record s { type = update s.type o type; refs = update s.refs o 1 }

-- `sys_obj_retype`
unfoldable pub obj_retype : (systick : ℕ) → Kernel → (cid type n : ℕ) → Sys
obj_retype systick s cid type n = do
  check (ltb type (2 ^ 31) && leb type obj_type_n)
  c ← find_cap s s.up cid
  let v = cap_at s c
  check (not (v.perm == 0))
  t ← type_of s v
  check (t == obj_untyped)
  len ← obj_size type n
  check (not (len == 0))
  check (leb len (s.len v.obj))
  s' ← obj_init systick type (set_head s v.obj type) v.obj n
  ok (ok_code, s')

-- An untyped object of `len` bytes at `o`.
abbrev pub set_untyped : Kernel → Ptr → ℕ → Kernel
set_untyped s o len = record s {
  type = update s.type o obj_untyped;
  refs = update s.refs o 1;
  len = update s.len o len;
}

-- `sys_obj_split`
unfoldable pub obj_split : Kernel → (cid nid : ℕ) → Sys
obj_split s cid nid = do
  c ← find_cap s s.up cid
  let v = cap_at s c
  check (has_write v.perm)
  t ← type_of s v
  check (t == obj_untyped)
  nc ← find_cap s s.up nid
  check ((cap_at s nc).perm == 0)
  let len = s.len v.obj / 2
  check (leb untyped_size len)
  let no = v.obj + len
  ok (
    ok_code,
    set_cap (set_untyped (set_untyped s no len) v.obj len) nc
        (record { perm = cap_read_write; obj = no }),
  )

-- `sys_obj_merge`, which does not test the permissions.
unfoldable pub obj_merge : Kernel → (cid_l cid_h : ℕ) → Sys
obj_merge s cid_l cid_h = do
  (cl, ch) ← find_both s s.up cid_l cid_h
  let ol = (cap_at s cl).obj
  let oh = (cap_at s ch).obj
  tl ← type_of s (cap_at s cl)
  check (tl == obj_untyped)
  th ← type_of s (cap_at s ch)
  check (th == obj_untyped)
  check (leb (s.refs ol) 1)
  check (leb (s.refs oh) 1)
  check (s.len ol == s.len oh)
  check (ol + s.len ol == oh)
  ok (ok_code, set_cap (record s { len = update s.len ol (s.len ol + s.len oh) }) ch no_cap)
