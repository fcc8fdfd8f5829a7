-- ===== src/Kernel/Frames/Unmapping.antt =====
-- `sys_frame_unmap` after `sys_frame_map`.
use agatha.Prelude.{
  ℕ, suc, ◌≡◌, ◌≢◌, refl, sym, ap, ◌∙◌, true, false, not, ◌&&◌, ◌==◌, arith, some, update,
  update-same, update-other,
}
use agatha.Kernel.Links.{Ptr, nil}
use agatha.Kernel.State.{
  Slot, Frame, Mmu, Kernel, ok, ok_code, cap_at, set_cap, cap_read_write, obj_frame, bind-ok,
  bind-at, check-ok, ok-injective,
}
use agatha.Kernel.Caps.{find_cap_type}
use agatha.Kernel.Tables.{none_held, unmap_loop}
use agatha.Kernel.Frames.{
  frame_l2, pages, find_place, frame_unmap, take_frame, in_time, set_frame, set_mmu, open_window,
}
use agatha.Kernel.Frames.Mapping.{open_window-Window}

-- The first frame of a list of mapped frames is the one to be found.
take_frame-first :
    (fuel : ℕ) (s : Kernel) (p : Ptr) (va : ℕ) (o : Ptr)
    → (s.frame p).next ≡ o
    → o ≢ nil
    → (s.frame o).kind ≢ frame_l2
    → (s.frame o).va ≡ va
    → take_frame (suc fuel) s p va
      ≡ some (set_frame s p (record (s.frame p) { next = (s.frame o).next }), o)
unfolding take_frame
take_frame-first fuel s p va o n h k v =
    let a : (o == nil) ≡ false = ground arith in
    let b : (not ((s.frame o).kind == frame_l2) && (s.frame o).va == va) ≡ true = ground arith in
    rw (n, a, b) refl

abbrev pub unlinked_table : Kernel → (t o : Ptr) → Kernel
unlinked_table s t o = set_frame s t (record (s.frame t) { next = (s.frame o).next })

-- The frame `o` taken out of the list behind the table `t`, whose first it is.
abbrev pub unlink_frame : Kernel → (t o : Ptr) → Kernel
unlink_frame s t o =
    let s₁ = unlinked_table s t o in set_frame s₁ o (record (s₁.frame o) { next = nil; va = nil })

-- What `sys_frame_unmap` does where the frame `o` is the first of the list behind `p`.
abbrev pub Unlinks : (va_max : ℕ) → Kernel → (p o : Ptr) → (nc : Slot) → (va : ℕ) → Kernel → Type 0
Unlinks va_max s p o nc va u =
    let s₁ = unlinked_table s p o in
    let s₂ = unlink_frame s p o in
    (m : Mmu) × (m.ram ≡ s.mmu.ram)
    × (unmap_loop va_max (pages (s₁.frame o).len) m (s₂.frame p).pa va 0 0 none_held ≡ ok u.mmu)
    × (u ≡ set_cap (set_mmu s₂ u.mmu) nc (record { perm = cap_read_write; obj = o }))

module _ (s : Kernel) (p o : Ptr) where
  -- The frames after the first of the two writes.
  abbrev shorter : Ptr → Frame
  shorter = update s.frame p (record (s.frame p) { next = (s.frame o).next })

  abbrev apart : Frame → Frame
  apart f = record f { next = nil; va = nil }

  pub unlink_frame-table :
      p ≢ o → (unlink_frame s p o).frame p ≡ record (s.frame p) { next = (s.frame o).next }
  unlink_frame-table h =
      update-other shorter o p (apart (shorter o)) h
      ∙ update-same s.frame p (record (s.frame p) { next = (s.frame o).next })

  pub unlink_frame-frame :
      p ≢ o → (unlink_frame s p o).frame o ≡ record (s.frame o) { next = nil; va = nil }
  unlink_frame-frame h =
      update-same shorter o (apart (shorter o))
      ∙ ap apart (
          update-other s.frame p o (record (s.frame p) { next = (s.frame o).next })
            (λ e. h (sym e)))

  pub unlink_frame-others : (x : Ptr) → x ≢ p → x ≢ o → (unlink_frame s p o).frame x ≡ s.frame x
  unlink_frame-others x h h' =
      update-other shorter o x (apart (shorter o)) h'
      ∙ update-other s.frame p x (record (s.frame p) { next = (s.frame o).next }) h

pub frame_unmap-Unlinks :
    (va_max fuel : ℕ) (s : Kernel) (tid nid va : ℕ) (tc nc : Slot) (o : Ptr) (r : ℕ) (u : Kernel)
    → find_cap_type s s.up tid cap_read_write obj_frame ≡ ok tc
    → find_place s nid ≡ ok nc
    → (s.frame (cap_at s tc).obj).next ≡ o
    → o ≢ nil
    → (s.frame o).kind ≢ frame_l2
    → (s.frame o).va ≡ va
    → frame_unmap va_max (suc fuel) s tid nid va ≡ ok (r, u)
    → Unlinks va_max s (cap_at s tc).obj o nc va u
unfolding frame_unmap
frame_unmap-Unlinks va_max fuel s tid nid va tc nc o r u found place next there kind at e =
    let T = (cap_at s tc).obj in
    let s₁ = set_frame s T (record (s.frame T) { next = (s.frame o).next }) in
    let s₂ = unlink_frame s T o in
    let e₁ = bind-at (find_place s nid) _ place (rw (found, frame_unmap) at e) in
    let (is_l1, e₂) = check-ok _ _ e₁ in
    let e₃ =
      bind-at (in_time (take_frame (suc fuel) s T va)) _
        (ap in_time (take_frame-first fuel s T va o next there kind at)) e₂ in
    let (not_nil, e₄) = check-ok _ _ e₃ in
    let ((s₃, window), opened, e₅) = bind-ok (open_window va_max s₂ (s₂.frame T).pa 0x4000) _ e₄ in
    let (same, set) = open_window-Window va_max s₂ (s₂.frame T).pa 0x4000 s₃ window opened in
    let (m, cleared, e₆) =
      bind-ok (unmap_loop va_max (pages (s₁.frame o).len) s₃.mmu (s₂.frame T).pa va 0 0 none_held) _
        e₅ in
    let result : ok_code ≡ r = ap (λ (x : ℕ × Kernel). x.0) (ok-injective e₆) in
    let linked : set_cap (set_mmu s₂ m) nc (record { perm = cap_read_write; obj = o }) ≡ u =
      ap (λ (x : Kernel). set_cap x nc (record { perm = cap_read_write; obj = o })) (sym (set m))
      ∙ ap (λ (x : ℕ × Kernel). x.1) (ok-injective e₆) in
    let mmu : m ≡ u.mmu = ap (λ (x : Kernel). x.mmu) linked in
    (
      s₃.mmu,
      same,
      cleared ∙ ap ok mmu,
      sym linked
          ∙ ap (λ (x : Mmu). set_cap (set_mmu s₂ x) nc (record { perm = cap_read_write; obj = o }))
              mmu,
    )
