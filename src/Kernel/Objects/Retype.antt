-- ===== src/Kernel/Objects/Retype.antt =====
-- What a successful `sys_obj_retype` shows, and what the test of its type lets through.
use agatha.Prelude.{
  ℕ, ◌≡◌, ◌≢◌, ◌≤◌, ◌<◌, refl, sym, ap, ◌∙◌, Bool, true, false, not, ltb, leb→le, ◌==◌, ==_iff,
  if◌then◌else◌, arith, Bool-cases, inl, inr, update,
}
use agatha.Kernel.Links.{Ptr, nil}
use agatha.Kernel.State.{
  Slot, Kernel, Check, ok, refuse, fault, cap_at, obj_untyped, obj_type_n, ok_code, bind-ok,
  check-ok, type_of-ok, ok-injective, max_procs, obj_endpoint, obj_caplist, obj_proc, obj_intr,
  obj_frame,
}
use agatha.Kernel.Caps.{find_cap}
use agatha.Kernel.Objects.{
  obj_size, obj_init, obj_retype, set_head, endpoint_init, caplist_init, proc_init,
}

-- A result in which no object has another type than before.
data KeepsType (s : Kernel) : Check Kernel → Type 0 where
  kept : (u : Kernel) → u.type ≡ s.type → KeepsType s (ok u)
  refused : KeepsType s refuse
  faulted : KeepsType s fault

KeepsType-if :
    (s : Kernel) (b : Bool) {x y : Check Kernel}
    → KeepsType s x
    → KeepsType s y
    → KeepsType s (if b then x else y)
KeepsType-if s true h k = h
KeepsType-if s false h k = k

proc_init-KeepsType : (systick : ℕ) (s : Kernel) (o : Ptr) → KeepsType s (proc_init systick s o)
unfolding proc_init
proc_init-KeepsType systick s o = elim (Bool-cases (ltb s.nextpid max_procs)) [
  | inl e ↦ rw e (kept _ refl)
  | inr e ↦ rw e faulted
]

-- No set-up function changes the type of an object.
obj_init-KeepsType :
    (systick type : ℕ) (s : Kernel) (o n : ℕ) → KeepsType s (obj_init systick type s o n)
unfolding obj_init endpoint_init caplist_init
obj_init-KeepsType systick type s o n = KeepsType-if s (type == obj_untyped) (kept _ refl) (
    KeepsType-if s (type == obj_endpoint) (kept _ refl) (
      KeepsType-if s (type == obj_caplist) (kept _ refl) (
        KeepsType-if s (type == obj_proc) (proc_init-KeepsType systick s o) (
          KeepsType-if s (type == obj_intr) (kept _ refl)
            (KeepsType-if s (type == obj_frame) (kept _ refl) faulted)))))

KeepsType-ok : (s t : Kernel) (x : Check Kernel) → KeepsType s x → x ≡ ok t → t.type ≡ s.type
KeepsType-ok s t x (kept u e) h = ap (λ (k : Kernel). k.type) (sym (ok-injective h)) ∙ e
KeepsType-ok s t x refused h = cc
KeepsType-ok s t x faulted h = cc

-- A type past the last one has no size.
obj_size-lt : (type n len : ℕ) → obj_size type n ≡ ok len → type < obj_type_n
unfolding obj_size
obj_size-lt type n len h = ground arith

-- A successful sys_obj_retype was of an untyped object that the caller has a capability in use to,
-- into one of the six types, with a size that is not 0 and fits the object; after it the object, and
-- no other, has the new type.
pub obj_retype-type :
    (systick : ℕ) (s t : Kernel) (cid type n r : ℕ)
    → obj_retype systick s cid type n ≡ ok (r, t)
    → (c : Slot) × (len : ℕ) × (find_cap s s.up cid ≡ ok c)
      × ((cap_at s c).perm ≢ 0)
      × (s.type (cap_at s c).obj ≡ obj_untyped)
      × (obj_size type n ≡ ok len)
      × (len ≢ 0)
      × (len ≤ s.len (cap_at s c).obj)
      × (type < obj_type_n)
      × (r ≡ ok_code)
      × (t.type ≡ update s.type (cap_at s c).obj type)
unfolding obj_retype
obj_retype-type systick s t cid type n r h =
    let (in_range, h₀) = check-ok _ _ h in
    let (c, found, h₁) = bind-ok (find_cap s s.up cid) _ h₀ in
    let (used, h₂) = check-ok _ _ h₁ in
    let (ne, h₃) = type_of-ok s (cap_at s c) _ h₂ in
    let (untyped, h₄) = check-ok _ _ h₃ in
    let (len, size, h₅) = bind-ok (obj_size type n) _ h₄ in
    let (some_len, h₆) = check-ok _ _ h₅ in
    let (fits, h₇) = check-ok _ _ h₆ in
    let o = (cap_at s c).obj in
    let (s', made, h₈) = bind-ok (obj_init systick type (set_head s o type) o n) _ h₇ in
    let eq = ok-injective h₈ in
    (
      c,
      len,
      found,
      in_use _ used,
      (==_iff _ _).0 untyped,
      size,
      in_use _ some_len,
      leb→le _ _ fits,
      obj_size-lt type n len size,
      sym (ap (λ (x : ℕ × Kernel). x.0) eq),
      sym (ap (λ (x : ℕ × Kernel). x.1.type) eq)
          ∙ KeepsType-ok (set_head s o type) s' _
              (obj_init-KeepsType systick type (set_head s o type) o n) made,
    )
  where
    in_use : (x : ℕ) → not (x == 0) ≡ true → x ≢ 0
    in_use x e = ground arith

-- With the type OBJ_type_n, on an untyped object that the caller has a capability in use to,
-- sys_obj_retype passes its test of the type and reads its tables past their end.
obj_retype-past_end :
    (systick : ℕ) (s : Kernel) (cid n : ℕ) (c : Slot)
    → find_cap s s.up cid ≡ ok c
    → (cap_at s c).perm ≢ 0
    → (cap_at s c).obj ≢ nil
    → s.type (cap_at s c).obj ≡ obj_untyped
    → obj_retype systick s cid obj_type_n n ≡ fault
unfolding obj_retype obj_size
obj_retype-past_end systick s cid n c found used ne untyped =
    let a : ((cap_at s c).perm == 0) ≡ false = zero_no _ used in
    let b : ((cap_at s c).obj == nil) ≡ false = zero_no _ ne in
    rw (found, obj_retype) (rw (a, b) (rw untyped refl))
  where
    zero_no : (x : ℕ) → x ≢ 0 → (x == 0) ≡ false
    zero_no x h = ground arith
