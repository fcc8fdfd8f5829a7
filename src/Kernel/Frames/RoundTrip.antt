-- ===== src/Kernel/Frames/RoundTrip.antt =====
-- `sys_frame_unmap` undoes `sys_frame_map`.
use agatha.Prelude.{
  ℕ, suc, ◌+◌, ◌*◌, ◌%◌, ◌^◌, ◌<◌, ◌≤◌, ◌≡◌, ◌≢◌, sym, ap, ◌∙◌, subst, Bool, true, false, ◌==◌,
  ==_iff, Bool-cases, ◌⊎◌, inl, inr, arith, update, update-same, update-other,
}
use agatha.Kernel.Links.{Ptr, nil}
use agatha.Kernel.State.{Cap, no_cap, Slot, Frame, Kernel, ok, cap_at, cap_read_write, obj_frame}
use agatha.Kernel.Caps.{find_cap_type}
use agatha.Kernel.Caps.Slots.{SameSlot, cap_at-set_cap, cap_at-set_cap_same}
use agatha.Kernel.Tables.{page_size, none_held, unmap_loop}
use agatha.Kernel.Tables.Slots.{Separate}
use agatha.Kernel.Tables.Restored.{unmap_loop-restored}
use agatha.Kernel.Frames.{
  frame_mem, frame_dev, frame_l1, frame_l2, pages, page_bits, find_frames, find_place, frame_map,
  frame_unmap, link_frame, set_mmu,
}
use agatha.Kernel.Frames.Mapping.{frame_map-Mapped}
use agatha.Kernel.Frames.Unmapping.{
  unlinked_table, unlink_frame, Unlinks, unlink_frame-table, unlink_frame-frame,
  unlink_frame-others, frame_unmap-Unlinks,
}

page_bits-lt : (b : Bool) → page_bits b < 512
page_bits-lt true = omega arith
page_bits-lt false = omega arith

abbrev moved_frame : Kernel → (p : Ptr) → (c : Slot) → (kind va : ℕ) → Frame
moved_frame s p c kind va = record (s.frame (cap_at s c).obj) {
  kind = kind;
  va = va;
  next = (s.frame p).next;
}

module _ (s : Kernel) (p : Ptr) (c : Slot) (kind va : ℕ) (h : p ≢ (cap_at s c).obj) where
  abbrev moved : Ptr → Frame
  moved = update s.frame (cap_at s c).obj (moved_frame s p c kind va)

  abbrev ahead : Frame → Frame
  ahead f = record f { next = (cap_at s c).obj }

  link_frame-table :
      (link_frame s p c kind va).frame p ≡ record (s.frame p) { next = (cap_at s c).obj }
  link_frame-table =
      let o = (cap_at s c).obj in
      update-same moved p (ahead (moved p))
      ∙ ap ahead (update-other s.frame o p (moved_frame s p c kind va) h)

  link_frame-frame :
      (link_frame s p c kind va).frame (cap_at s c).obj
      ≡ record (s.frame (cap_at s c).obj) { kind = kind; va = va; next = (s.frame p).next }
  link_frame-frame =
      let o = (cap_at s c).obj in
      update-other moved p o (ahead (moved p)) (λ e. h (sym e))
      ∙ update-same s.frame o (moved_frame s p c kind va)

  link_frame-others :
      (x : Ptr) → x ≢ p → x ≢ (cap_at s c).obj → (link_frame s p c kind va).frame x ≡ s.frame x
  link_frame-others x a b =
      update-other moved p x (ahead (moved p)) a
      ∙ update-other s.frame (cap_at s c).obj x (moved_frame s p c kind va) b

-- The state in which the frame `o` is mapped nowhere and the caller has it at `nc` again, but for the
-- capabilities and where the next window goes.
pub record Undone (s : Kernel) (o : Ptr) (nc : Slot) (u : Kernel) : Type 0 where
  pub tables : u.mmu.ram ≡ s.mmu.ram
  pub others : (x : Ptr) → x ≢ o → u.frame x ≡ s.frame x
  pub frame : u.frame o ≡ record (s.frame o) { next = nil; va = nil }
  pub given : cap_at u nc ≡ record { perm = cap_read_write; obj = o }

is_l1-ne : (k k' : ℕ) → k ≡ frame_l1 → (k' ≡ frame_mem) ⊎ (k' ≡ frame_dev) → k ≢ k'
is_l1-ne k k' e (inl f) g = omega arith
is_l1-ne k k' e (inr f) g = omega arith

not_l2 : (k : ℕ) → (k ≡ frame_mem) ⊎ (k ≡ frame_dev) → k ≢ frame_l2
not_l2 k (inl f) g = omega arith
not_l2 k (inr f) g = omega arith

other_frames :
    (s t : Kernel) (p o x : Ptr)
    → (unlink_frame t p o).frame p ≡ s.frame p
    → (x ≢ p → (unlink_frame t p o).frame x ≡ s.frame x)
    → (unlink_frame t p o).frame x ≡ s.frame x
other_frames s t p o x table h = elim (Bool-cases (x == p)) [
  | inl e ↦ subst (λ q. (unlink_frame t p o).frame q ≡ s.frame q) (sym ((==_iff x p).0 e)) table
  | inr e ↦ h (ground arith)
]

-- Where the page tables do not overlap, a frame that is not nil and at an aligned physical address
-- that is not 0 is mapped by sys_frame_map, with neither range wrapping, and the call of
-- sys_frame_unmap for the same table and address succeeds after that, which finds the table at the
-- same slot and a slot for the frame: all page tables are as before, and so are all frame objects but
-- this one, which is as before but for a va and next of nil, and the slot has a readable and writable
-- capability to it.
pub frame_unmap-frame_map :
    (va_max fuel : ℕ) (s : Kernel) (tid cid nid va : ℕ) (cache : Bool) (tc fc nc : Slot) (r r' : ℕ)
    (t u : Kernel)
    → find_frames s tid cid ≡ ok (tc, fc)
    → Separate s.mmu.ram (s.frame (cap_at s tc).obj).pa
    → va + pages (s.frame (cap_at s fc).obj).len * page_size ≤ 2 ^ 32
    → (s.frame (cap_at s fc).obj).pa + pages (s.frame (cap_at s fc).obj).len * page_size ≤ 2 ^ 32
    → (s.frame (cap_at s fc).obj).pa % page_size ≡ 0
    → 0 < (s.frame (cap_at s fc).obj).pa
    → (cap_at s fc).obj ≢ nil
    → frame_map va_max s tid cid va cache ≡ ok (r, t)
    → find_cap_type t t.up tid cap_read_write obj_frame ≡ ok tc
    → find_place t nid ≡ ok nc
    → frame_unmap va_max (suc fuel) t tid nid va ≡ ok (r', u)
    → Undone s (cap_at s fc).obj nc u
frame_unmap-frame_map va_max fuel s tid cid nid va cache tc fc nc r r' t u found sep top top'
      aligned pos there mapped found' place unmapped =
    let d = frame_map-Mapped va_max s tid cid va cache tc fc r t found sep top mapped in
    let p = (cap_at s tc).obj in
    let o = (cap_at s fc).obj in
    let kind = (s.frame o).kind in
    let l1 = (s.frame p).pa in
    let n = pages (s.frame o).len in
    let apart : p ≢ o = λ e. is_l1-ne _ _ d.is_table d.is_page (ap (λ x. (s.frame x).kind) e) in
    let not_same : ¬ (SameSlot tc fc) = λ e.
      apart (ap (λ k. (s.caps k tc.index).obj) (e.0) ∙ ap (λ k. (s.caps fc.list k).obj) (e.1)) in
    let s' = set_mmu s t.mmu in
    let linked = d.linked in
    let tf : t.frame p ≡ record (s.frame p) { next = o } =
      ap (λ (x : Kernel). x.frame p) linked ∙ link_frame-table s' p fc kind va apart in
    let ff : t.frame o ≡ record (s.frame o) { va = va; next = (s.frame p).next } =
      ap (λ (x : Kernel). x.frame o) linked ∙ link_frame-frame s' p fc kind va apart in
    let obj : (cap_at t tc).obj ≡ p =
      ap (λ (x : Kernel). (cap_at x tc).obj) linked
      ∙ ap (λ (v : Cap). v.obj) (cap_at-set_cap s fc tc no_cap not_same) in
    let (m, ram, cleared, unlinked) =
      subst (λ q. Unlinks va_max t q o nc va u) obj
        (frame_unmap-Unlinks va_max fuel t tid nid va tc nc o r' u found' place
          (ap (λ q. (t.frame q).next) obj ∙ ap (λ (f : Frame). f.next) tf) there
          (λ e. not_l2 kind d.is_page (sym (ap (λ (f : Frame). f.kind) ff) ∙ e))
          (ap (λ (f : Frame). f.va) ff) unmapped) in
    let len : pages ((unlinked_table t p o).frame o).len ≡ n =
      ap (λ (f : Frame). pages f.len)
        (update-other t.frame p o (record (t.frame p) { next = (t.frame o).next })
            (λ e. apart (sym e))
          ∙ ff) in
    let pa : ((unlink_frame t p o).frame p).pa ≡ l1 =
      ap (λ (f : Frame). f.pa) (unlink_frame-table t p o apart) ∙ ap (λ (f : Frame). f.pa) tf in
    let cleared' : unmap_loop va_max n m l1 va 0 0 none_held ≡ ok u.mmu =
      ap (λ x. unmap_loop va_max x m l1 va 0 0 none_held) (sym len)
      ∙ ap
          (λ x. unmap_loop va_max (pages ((unlinked_table t p o).frame o).len) m x va 0 0 none_held)
          (sym pa)
      ∙ cleared in
    let uf : u.frame ≡ (unlink_frame t p o).frame = ap (λ (x : Kernel). x.frame) unlinked in
    let table : (unlink_frame t p o).frame p ≡ s.frame p =
      unlink_frame-table t p o apart
      ∙ ap (λ (f : Frame). record f { next = (t.frame o).next }) tf
      ∙ ap (λ (f : Frame). record (s.frame p) { next = f.next }) ff in
    record {
      tables =
          unmap_loop-restored n s.mmu.ram l1 va (s.frame o).pa _ t.mmu.ram sep top d.was_free
            d.writes va_max m u.mmu ram top' aligned pos (page_bits-lt _) cleared';
      others = λ x h.
          ap (λ (f : Ptr → Frame). f x) uf
          ∙ other_frames s t p o x table (λ a.
            unlink_frame-others t p o x a h
            ∙ ap (λ (k : Kernel). k.frame x) linked
            ∙ link_frame-others s' p fc kind va apart x a h);
      frame =
          ap (λ (f : Ptr → Frame). f o) uf
          ∙ unlink_frame-frame t p o apart
          ∙ ap (λ (f : Frame). record f { next = nil; va = nil }) ff;
      given =
          ap (λ (x : Kernel). cap_at x nc) unlinked
          ∙ cap_at-set_cap_same t nc (record { perm = cap_read_write; obj = o });
    }
