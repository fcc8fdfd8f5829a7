-- ===== src/Kernel/Frames/Interrupts.antt =====
-- The system calls of arm/kern/sys.c on interrupts.
use agatha.Prelude.{ℕ, Bool, not, ◌&&◌, ◌==◌, update}
use agatha.Kernel.State.{
  Kernel, Check, ok, ◌>>=◌, ◌>>◌, check, Sys, ok_code, cap_at, has_read, type_of, obj_intr,
  obj_endpoint,
}
use agatha.Kernel.Caps.{find_both}
use agatha.Kernel.Frames.{find_object, root_pid}

-- `sys_intr_init`; whether the board lets the line be claimed is `claims`.
unfoldable pub intr_init : (claims : ℕ → Bool) → Kernel → (cid irqn : ℕ) → Sys
unfolding find_object
intr_init claims s cid irqn = do
  check ((s.proc s.up).pid == root_pid)
  o ← find_object s cid obj_intr
  check (claims irqn)
  let i = s.intr o
  ok (ok_code, record s { intr = update s.intr o (record i { irqn = irqn }) })

-- `sys_intr_connect`, before it hands the endpoint and the signal to the board.
unfoldable pub intr_connect : Kernel → (iid eid signal : ℕ) → Sys
intr_connect s iid eid signal = do
  (ic, ec) ← find_both s s.up iid eid
  t ← type_of s (cap_at s ic)
  check (t == obj_intr)
  t' ← type_of s (cap_at s ec)
  check (t' == obj_endpoint && has_read (cap_at s ec).perm)
  let o = (cap_at s ic).obj
  let i = s.intr o
  check (not (i.irqn == 0))
  ok (
    ok_code,
    record s { intr = update s.intr o (record i { end = (cap_at s ec).obj; signal = signal }) },
  )

-- `sys_intr_ack`: the line that is acknowledged and enabled at the interrupt controller.
unfoldable pub intr_ack : Kernel → (iid : ℕ) → Check ℕ
unfolding find_object
intr_ack s iid = do o ← find_object s iid obj_intr; ok (s.intr o).irqn
