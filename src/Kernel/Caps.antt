-- ===== src/Kernel/Caps.antt =====
-- Finding a capability by its id: `proc_find_cap` of sys/sys.c and `proc_find_cap_type` of
-- arm/kern/sys.c. An id is the bit pattern of an `int`.
pub mod Find
pub mod Slots
use agatha.Prelude.{
  ℕ, ◌/◌, ◌%◌, ◌^◌, Bool, true, false, not, ◌&&◌, ◌||◌, ltb, leb, ◌==◌, if◌then◌else◌, bit_and,
}
use agatha.Kernel.Links.{Ptr, nil}
use agatha.Kernel.State.{
  Cap, Slot, Kernel, Check, ok, refuse, fault, ◌>>=◌, ◌>>◌, check, safe, cap_at, has_read, type_of,
  clist_caps, obj_caplist,
}

-- `&l->caps[sub]` where the capability at `c` leads to a list.
unfoldable pub find_sub : Kernel → Slot → ℕ → Check Slot
find_sub s c sub = do
  let v = cap_at s c
  check (has_read v.perm)
  t ← type_of s v
  check (t == obj_caplist)
  check (leb sub clist_caps)
  safe (ltb sub clist_caps)
  ok (record { list = v.obj; index = sub })

-- `proc_find_cap`, where `refuse` is nil. A negative id passes the test of its base.
unfoldable pub find_cap : Kernel → Ptr → ℕ → Check Slot
find_cap s p cid = do
  let base = cid / 2 ^ 12
  let sub = cid % 2 ^ 12
  let root = (s.proc p).cap_root
  safe (ltb cid (2 ^ 31))
  check (ltb base clist_caps)
  safe (not (root == nil))
  if sub == 0
      then ok (record { list = root; index = base })
      else find_sub s (record { list = root; index = base }) sub

-- Two capabilities that are both looked up before either is tested.
unfoldable pub find_both : Kernel → Ptr → ℕ → ℕ → Check (Slot × Slot)
find_both s p cid nid = elim (find_cap s p cid) [
  | ok c ↦ elim (find_cap s p nid) [ ok n ↦ ok (c, n) | refuse ↦ refuse | fault ↦ fault ]
  | refuse ↦ elim (find_cap s p nid) [ ok n ↦ refuse | refuse ↦ refuse | fault ↦ fault ]
  | fault ↦ fault
]

-- `proc_find_cap_type`
unfoldable pub find_cap_type : Kernel → Ptr → ℕ → (perm type : ℕ) → Check Slot
find_cap_type s p cid perm type = do
  c ← find_cap s p cid
  let v = cap_at s c
  check (bit_and v.perm perm == perm)
  if v.perm == 0 then ok c else (do t ← type_of s v; check (t == type); ok c)
