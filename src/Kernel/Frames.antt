-- ===== src/Kernel/Frames.antt =====
-- Frames of memory and page tables: the system calls of arm/kern/sys.c. `va_max` is where
-- the kernel's windows end.
pub mod Interrupts
pub mod Sizes
pub mod Mapping
pub mod Unmapping
pub mod RoundTrip
pub mod Tests
use agatha.Prelude.{
  ℕ, zero, suc, ◌+◌, ◌-◌, ◌*◌, ◌/◌, ◌%◌, ◌^◌, Bool, true, false, not, ◌&&◌, ◌||◌, ltb, leb, ◌==◌,
  if◌then◌else◌, update, Option, none, some, bit_or,
}
use agatha.Kernel.Links.{Ptr, nil}
use agatha.Kernel.State.{
  Cap, no_cap, Slot, Endpoint, Proc, Frame, Intr, Mmu, Kernel, Check, ok, refuse, fault, ◌>>=◌,
  ◌>>◌, check, safe, Sys, ok_code, cap_at, set_cap, has_read, has_write, cap_read_write, type_of,
  obj_untyped, obj_frame, obj_intr, obj_endpoint,
}
use agatha.Kernel.Caps.{find_cap, find_both, find_cap_type}
use agatha.Kernel.Tables.{kernel_map, map_l2, map_loop, unmap_loop, none_held, page_size, l1x, l2x}

-- FRAME_NONE to FRAME_KOBJ
abbrev pub frame_none : ℕ
frame_none = 0

abbrev pub frame_mem : ℕ
frame_mem = 1

abbrev pub frame_dev : ℕ
frame_dev = 2

abbrev pub frame_l1 : ℕ
frame_l1 = 3

abbrev pub frame_l2 : ℕ
frame_l2 = 4

abbrev pub frame_kobj : ℕ
frame_kobj = 5

abbrev pub root_pid : ℕ
root_pid = 1

-- The loop of `sys_obj_create` that looks for the length among the doublings of `size`, which is an
-- `uint32_t`; `none` is out of fuel.
unfoldable pub is_size : (fuel size len : ℕ) → Option Bool
is_size zero size len = none
is_size (suc fuel) size len =
    let later = is_size fuel (size * 2 % 2 ^ 32) len in
    if ltb len size then some false else if size == len then some true else later

-- A loop that runs out of fuel does not come back.
abbrev pub in_time : {A : Type 0} → Option A → Check A
in_time none = fault
in_time (some a) = ok a

-- `memset(o, 0, len)` on the objects at `o` and above.
abbrev pub zeroed {ℓ} : {A : Type ℓ} → (Ptr → A) → A → (o len : ℕ) → Ptr → A
zeroed f v o len x = if leb o x && ltb x (o + len) then v else f x

abbrev pub clear_objects : Kernel → (o len : ℕ) → Kernel
clear_objects s o len = record s {
  type = zeroed s.type 0 o len;
  refs = zeroed s.refs 0 o len;
  len = zeroed s.len 0 o len;
  caps = zeroed s.caps (λ _. no_cap) o len;
  endpoint = zeroed s.endpoint (record { signal = 0; bound = nil; rwait = nil }) o len;
  frame = zeroed s.frame (record { kind = frame_none; pa = 0; len = 0; va = 0; next = nil }) o len;
  intr = zeroed s.intr (record { irqn = 0; end = nil; signal = 0 }) o len;
}

abbrev pub set_frame : Kernel → Ptr → Frame → Kernel
set_frame s o v = record s { frame = update s.frame o v }

abbrev pub set_mmu : Kernel → Mmu → Kernel
set_mmu s m = record s { mmu = m }

-- A window for the code that follows.
abbrev pub open_window : (va_max : ℕ) → Kernel → (pa len : ℕ) → Check (Kernel × ℕ)
open_window va_max s pa len = do
  let m = s.mmu
  (next, window) ← kernel_map va_max m.va_next pa len
  ok (set_mmu s (record m { va_next = next }), window)

-- `sys_obj_create`
unfoldable pub obj_create : (va_max fuel : ℕ) → Kernel → (fid nid : ℕ) → Sys
unfolding is_size
obj_create va_max fuel s fid nid = do
  (fc, nc) ← find_both s s.up fid nid
  check ((cap_at s nc).perm == 0)
  let v = cap_at s fc
  check (has_write v.perm && has_read v.perm)
  t ← type_of s v
  check (t == obj_frame)
  let f = s.frame v.obj
  check (f.kind == frame_mem)
  whole ← in_time (is_size fuel page_size f.len)
  check whole
  (s₁, o) ← open_window va_max s f.pa f.len
  check (not (o == nil))
  let s₂ = clear_objects s₁ o f.len
  let s₃ = record s₂ {
    refs = update s₂.refs o 0;
    type = update s₂.type o obj_untyped;
    len = update s₂.len o f.len;
  }
  let s₄ = set_cap s₃ nc (record { perm = cap_read_write; obj = o })
  ok (ok_code, set_cap (set_frame s₄ v.obj (record f { kind = frame_kobj })) fc no_cap)

-- The object that a capability leads to, whatever its permission.
unfoldable pub find_object : Kernel → (cid type : ℕ) → Check Ptr
find_object s cid type = do
  c ← find_cap s s.up cid
  t ← type_of s (cap_at s c)
  check (t == type)
  ok (cap_at s c).obj

-- `sys_frame_setup`
unfoldable pub frame_setup : Kernel → (cid kind pa len : ℕ) → Sys
unfolding find_object
frame_setup s cid kind pa len = do
  check ((s.proc s.up).pid == root_pid)
  o ← find_object s cid obj_frame
  let f = s.frame o
  check (f.kind == frame_none)
  ok (ok_code, set_frame s o (record f { kind = kind; pa = pa; len = len; next = nil }))

-- `sys_frame_info`: the three values that it writes out.
unfoldable pub frame_info : Kernel → (cid : ℕ) → Check (ℕ × ℕ × ℕ)
frame_info s cid = do
  c ← find_cap_type s s.up cid cap_read_write obj_frame
  let f = s.frame (cap_at s c).obj
  ok (f.kind, f.pa, f.len)

-- `sys_frame_l1_setup`; `kernel_l1` is what the kernel's own table holds at an offset.
unfoldable pub frame_l1_setup : (va_max : ℕ) → (kernel_l1 : ℕ → ℕ) → Kernel → (cid : ℕ) → Sys
frame_l1_setup va_max kernel_l1 s cid = do
  c ← find_cap_type s s.up cid cap_read_write obj_frame
  let o = (cap_at s c).obj
  let f = s.frame o
  check (f.kind == frame_mem)
  check (f.pa % 0x4000 == 0)
  check (f.len == 0x4000)
  (s₁, window) ← open_window va_max s f.pa 0x4000
  let m = s₁.mmu
  let copied =
      λ (x : ℕ). if leb f.pa x && ltb x (f.pa + 0x4000) then kernel_l1 (x - f.pa) else m.ram x
  ok (
    ok_code,
    set_frame (set_mmu s₁ (record m { ram = copied })) o
        (record f { kind = frame_l1; va = nil; next = nil }),
  )

-- Two frames that are both looked up before either is tested.
unfoldable pub find_frames : Kernel → (tid cid : ℕ) → Check (Slot × Slot)
find_frames s tid cid = elim (find_cap_type s s.up tid cap_read_write obj_frame) [
  | ok t ↦ elim (find_cap_type s s.up cid cap_read_write obj_frame) [
    | ok c ↦ ok (t, c)
    | refuse ↦ refuse
    | fault ↦ fault
  ]
  | refuse ↦ elim (find_cap_type s s.up cid cap_read_write obj_frame) [
    | ok c ↦ refuse
    | refuse ↦ refuse
    | fault ↦ fault
  ]
  | fault ↦ fault
]

-- `(len + PAGE_SIZE - 1) / PAGE_SIZE`, how often a loop over the pages goes round.
abbrev pub pages : ℕ → ℕ
pages len = (len + (page_size - 1)) / page_size

-- `ff->va = va; ff->next = tf->next; tf->next = ff;` for a frame `c`, and the caller loses `c`.
abbrev pub link_frame : Kernel → (t : Ptr) → (c : Slot) → (kind va : ℕ) → Kernel
link_frame s t c kind va =
    let o = (cap_at s c).obj in
    let f = s.frame o in
    let s₁ = set_frame s o (record f { kind = kind; va = va; next = (s.frame t).next }) in
    let tf = s₁.frame t in set_cap (set_frame s₁ t (record tf { next = o })) c no_cap

-- `sys_frame_l2_map`
unfoldable pub frame_l2_map : (va_max : ℕ) → Kernel → (tid cid va : ℕ) → Sys
frame_l2_map va_max s tid cid va = do
  (tc, fc) ← find_frames s tid cid
  let tf = s.frame (cap_at s tc).obj
  let ff = s.frame (cap_at s fc).obj
  check (tf.kind == frame_l1)
  check (ff.kind == frame_mem)
  (s₁, window₁) ← open_window va_max s tf.pa 0x4000
  (s₂, window₂) ← open_window va_max s₁ ff.pa ff.len
  let m = s₂.mmu
  let cleared = zeroed m.ram 0 ff.pa ff.len
  m' ← map_l2 (pages ff.len) (record m { ram = cleared }) tf.pa ff.pa va 0
  ok (ok_code, link_frame (set_mmu s₂ m') (cap_at s tc).obj fc frame_l2 va)

-- `sys_frame_l2_unmap`
unfoldable pub frame_l2_unmap : Kernel → (tid nid va : ℕ) → Sys
frame_l2_unmap s tid nid va = refuse

-- The bits of an entry beside the page: L2_SMALL, tex, ap (AP_RW_RW), c and b.
abbrev pub page_bits : Bool → ℕ
page_bits true = bit_or (bit_or (bit_or (bit_or 2 (7 * 2 ^ 6)) (3 * 2 ^ 4)) (1 * 2 ^ 3)) (0 * 2 ^ 2)
page_bits false =
    bit_or (bit_or (bit_or (bit_or 2 (0 * 2 ^ 6)) (3 * 2 ^ 4)) (0 * 2 ^ 3)) (1 * 2 ^ 2)

-- `sys_frame_map`; a device is never mapped with the cache.
unfoldable pub frame_map : (va_max : ℕ) → Kernel → (tid cid va : ℕ) → (cache : Bool) → Sys
frame_map va_max s tid cid va cache = do
  (tc, fc) ← find_frames s tid cid
  let tf = s.frame (cap_at s tc).obj
  let ff = s.frame (cap_at s fc).obj
  check (tf.kind == frame_l1)
  check (ff.kind == frame_mem || ff.kind == frame_dev)
  let bits = page_bits (not (ff.kind == frame_dev) && cache)
  (s₁, window) ← open_window va_max s tf.pa 0x4000
  m ← map_loop va_max (pages ff.len) s₁.mmu tf.pa ff.pa va bits 0 none_held
  ok (ok_code, link_frame (set_mmu s₁ m) (cap_at s tc).obj fc ff.kind va)

-- The search of `sys_frame_unmap` behind the frame `p` in a list of mapped frames. The frame found, or
-- nil, with the list as it is then; `none` is out of fuel.
unfoldable pub take_frame : ℕ → Kernel → (p : Ptr) → (va : ℕ) → Option (Kernel × Ptr)
take_frame zero s p va = none
take_frame (suc fuel) s p va =
    let o = (s.frame p).next in
    let later = take_frame fuel s o va in
    let f = s.frame o in
    let before = s.frame p in
    if o == nil
    then some (s, nil)
    else if not (f.kind == frame_l2) && f.va == va
    then some (set_frame s p (record before { next = f.next }), o)
    else later

-- The capability for `sys_frame_unmap`, of which only the look-up is tested: its permission has to
-- contain no bit, and the object of one in use to be untyped.
unfoldable pub find_place : Kernel → (nid : ℕ) → Check Slot
find_place s nid = find_cap_type s s.up nid 0 obj_untyped

-- `sys_frame_unmap`
unfoldable pub frame_unmap : (va_max fuel : ℕ) → Kernel → (tid nid va : ℕ) → Sys
unfolding find_place
frame_unmap va_max fuel s tid nid va = elim (find_cap_type s s.up tid cap_read_write obj_frame) [
  | ok tc ↦ do
    nc ← find_place s nid
    let t = (cap_at s tc).obj
    let tf = s.frame t
    check (tf.kind == frame_l1)
    (s₁, o) ← in_time (take_frame fuel s t va)
    check (not (o == nil))
    let f = s₁.frame o
    let s₂ = set_frame s₁ o (record f { next = nil; va = nil })
    (s₃, window) ← open_window va_max s₂ (s₂.frame t).pa 0x4000
    m ← unmap_loop va_max (pages f.len) s₃.mmu (s₂.frame t).pa va 0 0 none_held
    ok (ok_code, set_cap (set_mmu s₃ m) nc (record { perm = cap_read_write; obj = o }))
  | refuse ↦ elim (find_place s nid) [ ok nc ↦ refuse | refuse ↦ refuse | fault ↦ fault ]
  | fault ↦ fault
]
