-- ===== src/Kernel/State.antt =====
-- The kernel's state: include/sysobj.h and arm/include/sysobj_mach.h. Objects lie at addresses, 0 is
-- nil, and the objects of each C type are a map from addresses to the fields of that type.
use agatha.Prelude.{
  ℕ, ◌-◌, ◌/◌, ◌%◌, ◌^◌, ◌≡◌, ◌≢◌, refl, inl, inr, Bool-cases, arith, Bool, true, false, List,
  Option, update, ◌==◌, if◌then◌else◌,
}
use agatha.Kernel.Links.{Ptr, nil, Links}
use agatha.Kernel.Sched.{Sched}

-- `OBJ_untyped` to `OBJ_frame`
abbrev pub obj_untyped : ℕ
obj_untyped = 0

abbrev pub obj_endpoint : ℕ
obj_endpoint = 1

abbrev pub obj_caplist : ℕ
obj_caplist = 2

abbrev pub obj_proc : ℕ
obj_proc = 3

abbrev pub obj_intr : ℕ
obj_intr = 4

abbrev pub obj_frame : ℕ
obj_frame = 5

abbrev pub obj_type_n : ℕ
obj_type_n = 6

abbrev pub clist_caps : ℕ
clist_caps = 510

abbrev pub max_procs : ℕ
max_procs = 16

-- `struct cap`: `perm` is a set of CAP_write (1) and CAP_read (2).
pub record Cap : Type 0 where
  pub perm : ℕ
  pub obj : Ptr

abbrev pub no_cap : Cap
no_cap = record { perm = 0; obj = nil }

abbrev pub has_write : ℕ → Bool
has_write perm = perm % 2 == 1

abbrev pub has_read : ℕ → Bool
has_read perm = perm / 2 % 2 == 1

abbrev pub cap_write : ℕ
cap_write = 1

abbrev pub cap_read_write : ℕ
cap_read_write = 3

-- A `cap_t *`: an index into the array of a capability list.
pub record Slot : Type 0 where
  pub list : Ptr
  pub index : ℕ

-- Where a process that has called `schedule` goes on when it runs again (`label_t`).
pub data Label : Type 0 where
  empty : Label  -- as `proc_init` leaves it
  start : (pc sp : ℕ) → Label  -- set by `func_label` to enter user code
  in_mesg : Label  -- copies the answer out
  in_recv : (e : Ptr) (o : Option Slot) → Label  -- takes up the loop again
  in_return : Label  -- returns OK
  in_exit : Label  -- panics

-- `struct obj_endpoint`; its list `waiting` is in the kernel's `waits`.
pub record Endpoint : Type 0 where
  pub signal : ℕ
  pub bound : Ptr
  pub rwait : Ptr

-- `struct obj_proc`, less what the scheduler and the lists keep. The last three are the user's: the
-- value that its call returns, and the message and the sender that the kernel writes out for it.
pub record Proc : Type 0 where
  pub pid : ℕ
  pub label : Label
  pub vspace : ℕ
  pub bound_signal : ℕ
  pub m : List ℕ
  pub give : Option Slot
  pub cap_root : Ptr
  pub ret : ℕ
  pub got : List ℕ
  pub sender : ℕ

-- `struct obj_frame`, with `FRAME_NONE` to `FRAME_KOBJ` as its kinds.
pub record Frame : Type 0 where
  pub kind : ℕ
  pub pa : ℕ
  pub len : ℕ
  pub va : ℕ
  pub next : Ptr

-- `struct obj_intr`
pub record Intr : Type 0 where
  pub irqn : ℕ
  pub end : Ptr
  pub signal : ℕ

-- The words of the physical memory that hold page tables, and where the next window of the kernel on
-- physical memory goes (`va_next` of arm/kern/main.c).
pub record Mmu : Type 0 where
  pub ram : ℕ → ℕ
  pub va_next : ℕ

pub record Kernel : Type 0 where
  pub up : Ptr
  pub sched : Sched
  pub waits : Links
  pub refs : Ptr → ℕ
  pub type : Ptr → ℕ
  pub len : Ptr → ℕ  -- of an untyped object
  pub caps : Ptr → ℕ → Cap
  pub endpoint : Ptr → Endpoint
  pub proc : Ptr → Proc
  pub frame : Ptr → Frame
  pub intr : Ptr → Intr
  pub nextpid : ℕ
  pub procs : ℕ → Ptr
  pub mmu : Mmu

-- What a step of the kernel comes to: a value, `return ERR` with nothing changed, or a fault, which is
-- a read through nil, a read outside of an array, or a panic.
pub data Check (A : Type 0) : Type 0 where
  ok : A → Check A
  refuse : Check A
  fault : Check A

infixl 5 ◌>>=◌ ◌>>◌
abbrev pub ◌>>=◌ : {A B : Type 0} → Check A → (A → Check B) → Check B
ok a >>= f = f a
refuse >>= f = refuse
fault >>= f = fault

abbrev pub ◌>>◌ : {B : Type 0} → Check (Unit {0}) → Check B → Check B
m >> k = m >>= λ _. k

-- `if (!b) return ERR;`
abbrev pub check : Bool → Check (Unit {0})
check true = ok tt
check false = refuse

-- What has to hold for the code not to fault.
abbrev pub safe : Bool → Check (Unit {0})
safe true = ok tt
safe false = fault

-- A system call: its result and the new state, where `refuse` is ERR and the old state.
abbrev pub Sys : Type 0
Sys = Check (ℕ × Kernel)

abbrev pub ok_code : ℕ
ok_code = 0

-- `ERR`, -1 as a `size_t`
abbrev pub err_code : ℕ
err_code = 2 ^ 32 - 1

abbrev pub cap_at : Kernel → Slot → Cap
cap_at s c = s.caps c.list c.index

abbrev pub set_cap : Kernel → Slot → Cap → Kernel
set_cap s c v = record s { caps = update s.caps c.list (update (s.caps c.list) c.index v) }

-- `c->obj->type`
abbrev pub type_of : Kernel → Cap → Check ℕ
type_of s c = if c.obj == nil then fault else ok (s.type c.obj)

pub data CheckCases (A : Type 0) (x : Check A) : Type 0 where
  is_ok : (a : A) → x ≡ ok a → CheckCases A x
  is_refuse : x ≡ refuse → CheckCases A x
  is_fault : x ≡ fault → CheckCases A x

-- To split on a result and keep the equation.
pub Check-cases : {A : Type 0} (x : Check A) → CheckCases A x
Check-cases (ok a) = is_ok a refl
Check-cases refuse = is_refuse refl
Check-cases fault = is_fault refl

-- What a successful chain of tests has passed, a step at a time.
pub bind-ok :
    {A B : Type 0} (m : Check A) (f : A → Check B) {b : B}
    → (m >>= f) ≡ ok b
    → (a : A) × (m ≡ ok a) × (f a ≡ ok b)
bind-ok (ok a) f h = (a, refl, h)
bind-ok refuse f h = absurd (cc)
bind-ok fault f h = absurd (cc)

pub bind-at :
    {A B : Type 0} (m : Check A) (f : A → Check B) {a : A} {b : B}
    → m ≡ ok a
    → (m >>= f) ≡ ok b
    → f a ≡ ok b
bind-at m f e h = rw (e, ◌>>=◌) at h

pub check-ok :
    {B : Type 0} (t : Bool) (k : Check B) {b : B} → (check t >> k) ≡ ok b → (t ≡ true) × (k ≡ ok b)
check-ok true k h = (refl, h)
check-ok false k h = absurd (cc)

pub safe-ok :
    {B : Type 0} (t : Bool) (k : Check B) {b : B} → (safe t >> k) ≡ ok b → (t ≡ true) × (k ≡ ok b)
safe-ok true k h = (refl, h)
safe-ok false k h = absurd (cc)

pub fault-ne-ok : {B : Type 0} {b : B} → fault ≡ ok b → ⊥
fault-ne-ok e = cc

pub type_of-ok :
    {B : Type 0} (s : Kernel) (v : Cap) (f : ℕ → Check B) {b : B}
    → (type_of s v >>= f) ≡ ok b
    → (v.obj ≢ nil) × (f (s.type v.obj) ≡ ok b)
type_of-ok s v f h = elim (Bool-cases (v.obj == nil)) [
  | inl e ↦ absurd (fault-ne-ok (rw (e, type_of) at h))
  | inr e ↦ (ground arith, rw (e, type_of) at h)
]

pub ok-injective : {A : Type 0} {a b : A} → ok a ≡ ok b → a ≡ b
ok-injective e = cc
