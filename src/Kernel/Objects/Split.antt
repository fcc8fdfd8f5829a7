-- ===== src/Kernel/Objects/Split.antt =====
-- What `sys_obj_split` tests and leaves.
use agatha.Prelude.{
  ℕ, ◌+◌, ◌/◌, ◌%◌, ◌^◌, ◌≤◌, ◌≡◌, ◌≢◌, sym, ap, ◌∙◌, subst, true, leb→le, ==_iff, arith, update,
  update-other,
}
use agatha.Kernel.Links.{Ptr, nil}
use agatha.Kernel.State.{
  Cap, Slot, Kernel, ok, cap_at, set_cap, has_write, has_read, obj_caplist, obj_untyped,
  cap_read_write, ok_code, bind-ok, check-ok, type_of-ok, ok-injective, bind-at,
}
use agatha.Kernel.Caps.{find_cap}
use agatha.Kernel.Caps.Slots.{cap_at-set_cap, used-ne-free}
use agatha.Kernel.Caps.Find.{find_cap_iff, Names, IsReadable, root, sub, root_slot}
use agatha.Kernel.Objects.{obj_split, set_untyped, untyped_size}

abbrev pub half : Kernel → Slot → ℕ
half s c = s.len (cap_at s c).obj / 2

-- The state after the object at `c` was split with a capability to the upper half at `nc`.
abbrev pub split_state : Kernel → (c nc : Slot) → Kernel
split_state s c nc =
    let o = (cap_at s c).obj in
    set_cap (set_untyped (set_untyped s (o + half s c) (half s c)) o (half s c)) nc
      (record { perm = cap_read_write; obj = o + half s c })

-- All that a successful split has tested, and its result.
pub record WasSplit (s : Kernel) (c nc : Slot) (r : ℕ) (t : Kernel) : Type 0 where
  pub writable : has_write (cap_at s c).perm ≡ true
  pub ne_nil : (cap_at s c).obj ≢ nil
  pub is_untyped : s.type (cap_at s c).obj ≡ obj_untyped
  pub free : (cap_at s nc).perm ≡ 0
  pub fits : untyped_size ≤ half s c
  pub code : r ≡ ok_code
  pub state : t ≡ split_state s c nc

module _ (s : Kernel) (cid nid r : ℕ) (t : Kernel) (h : obj_split s cid nid ≡ ok (r, t)) where
  pub obj_split-WasSplit :
      (c nc : Slot) → find_cap s s.up cid ≡ ok c → find_cap s s.up nid ≡ ok nc → WasSplit s c nc r t
  unfolding obj_split
  obj_split-WasSplit c nc found found' =
      let (writable, h₂) = check-ok _ _ (bind-at _ _ found h) in
      let (ne_nil, h₃) = type_of-ok s (cap_at s c) _ h₂ in
      let (is_untyped, h₄) = check-ok _ _ h₃ in
      let (free, h₆) = check-ok _ _ (bind-at _ _ found' h₄) in
      let (fits, h₇) = check-ok _ _ h₆ in
      let e = ok-injective h₇ in
      record {
        writable = writable;
        ne_nil = ne_nil;
        is_untyped = (==_iff _ _).0 is_untyped;
        free = (==_iff _ _).0 free;
        fits = leb→le _ _ fits;
        code = sym (ap (λ (x : ℕ × Kernel). x.0) e);
        state = sym (ap (λ (x : ℕ × Kernel). x.1) e);
      }

  pub obj_split-found :
      (c : Slot) × (nc : Slot) × (find_cap s s.up cid ≡ ok c) × (find_cap s s.up nid ≡ ok nc)
  unfolding obj_split
  obj_split-found =
      let (c, found, h₁) = bind-ok (find_cap s s.up cid) _ h in
      let (writable, h₂) = check-ok _ _ h₁ in
      let (ne_nil, h₃) = type_of-ok s (cap_at s c) _ h₂ in
      let (is_untyped, h₄) = check-ok _ _ h₃ in
      let (nc, found', h₅) = bind-ok (find_cap s s.up nid) _ h₄ in (c, nc, found, found')

two-ne-zero : ◌≢◌ {A = ℕ} 2 0
two-ne-zero e = absurd (omega arith)

perm-of-read : (n : ℕ) → has_read n ≡ true → n ≢ 0
perm-of-read n h = ground arith

pub perm-of-write : (n : ℕ) → has_write n ≡ true → n ≢ 0
perm-of-write n h = ground arith

-- A slot found in the old state is found in the new one, where the upper half was no list.
module _ (s : Kernel) (c nc : Slot) where
  pub find_cap-split_state :
      (cid : ℕ) (d : Slot)
      → s.type (cap_at s c).obj ≡ obj_untyped
      → (cap_at s nc).perm ≡ 0
      → s.type ((cap_at s c).obj + half s c) ≢ obj_caplist
      → find_cap s s.up cid ≡ ok d
      → find_cap (split_state s c nc) s.up cid ≡ ok d
  find_cap-split_state cid d typed free apart h =
      let (r, n) = (find_cap_iff s s.up cid d).0 h in
      (find_cap_iff (split_state s c nc) s.up cid d).1
        (record { has_root = r.has_root; positive = r.positive; base = r.base }, names d n)
    where
      t : Kernel
      t = split_state s c nc

      o : Ptr
      o = (cap_at s c).obj

      type-same : (x : Ptr) → s.type x ≡ obj_caplist → t.type x ≡ obj_caplist
      type-same x e =
          update-other (update s.type (o + half s c) obj_untyped) o x obj_untyped
            (λ q. two-ne-zero (sym e ∙ ap s.type q ∙ typed))
          ∙ update-other s.type (o + half s c) x obj_untyped (λ q. apart (sym (ap s.type q) ∙ e))
          ∙ e

      same : (k : Slot) → IsReadable s k → cap_at t k ≡ cap_at s k
      same k r = cap_at-set_cap s nc k _ (used-ne-free s nc k (perm-of-read _ r.readable) free)

      readable : (k : Slot) → IsReadable s k → IsReadable t k
      readable k r = record {
        readable = rw (same k r) r.readable;
        ne_nil = rw (same k r) r.ne_nil;
        is_list = rw (same k r) (type-same (cap_at s k).obj r.is_list);
      }

      names : (d : Slot) → Names s s.up cid d → Names t s.up cid d
      names d (root e) = root e
      names d (sub e lt r) =
          let k = root_slot s s.up (cid / 2 ^ 12) in
          subst (λ (v : Cap). Names t s.up cid (record { list = v.obj; index = cid % 2 ^ 12 }))
            (same k r) (sub e lt (readable k r))
