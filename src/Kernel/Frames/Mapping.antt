-- ===== src/Kernel/Frames/Mapping.antt =====
-- `sys_frame_map` and `sys_frame_unmap` and the page tables that they change.
use agatha.Prelude.{
  ℕ, ◌+◌, ◌*◌, ◌%◌, ◌^◌, ◌≤◌, ◌≡◌, sym, ap, ◌∙◌, subst, Bool, true, not, ◌&&◌, ◌||◌, ◌==◌, ==_iff,
  ◌⊎◌, arith, bit_or,
}
use agatha.Kernel.State.{
  Slot, Mmu, Kernel, ok, ok_code, cap_at, bind-ok, bind-at, check-ok, ok-injective,
}
use agatha.Kernel.Tables.{page_size, none_held, map_loop, kernel_map}
use agatha.Kernel.Tables.Slots.{Separate}
use agatha.Kernel.Tables.Maps.{Free, map_loop-Written}
use agatha.Kernel.Tables.Writes.{Written}
use agatha.Kernel.Tables.Entries.{Maps, Written-Maps}
use agatha.Kernel.Frames.{
  frame_mem, frame_dev, frame_l1, pages, page_bits, find_frames, frame_map, link_frame, set_mmu,
  open_window,
}

-- Opening a window changes only where the next one goes.
pub open_window-Window :
    (va_max : ℕ) (s : Kernel) (pa len : ℕ) (t : Kernel) (window : ℕ)
    → open_window va_max s pa len ≡ ok (t, window)
    → (t.mmu.ram ≡ s.mmu.ram) × ((m : Mmu) → set_mmu t m ≡ set_mmu s m)
open_window-Window va_max s pa len t window e =
    let ((next, w), mapped, e₁) = bind-ok (kernel_map va_max s.mmu.va_next pa len) _ e in
    let k = ap (λ (p : Kernel × ℕ). p.0) (ok-injective e₁) in
    (ap (λ (x : Kernel). x.mmu.ram) (sym k), λ m. ap (λ (x : Kernel). set_mmu x m) (sym k))

one_of : (k : ℕ) → (k == frame_mem || k == frame_dev) ≡ true → (k ≡ frame_mem) ⊎ (k ≡ frame_dev)
one_of k h = ground arith

-- What `sys_frame_map` makes of a kernel: the frame of `fc` is mapped at `va` in the table of `tc`.
pub record Mapped (s : Kernel) (tc fc : Slot) (va : ℕ) (cache : Bool) (r : ℕ) (t : Kernel)
    : Type 0 where
  pub code : r ≡ ok_code
  pub is_table : (s.frame (cap_at s tc).obj).kind ≡ frame_l1
  pub is_page :
      ((s.frame (cap_at s fc).obj).kind ≡ frame_mem)
      ⊎ ((s.frame (cap_at s fc).obj).kind ≡ frame_dev)
  pub linked :
      t ≡ link_frame (set_mmu s t.mmu) (cap_at s tc).obj fc (s.frame (cap_at s fc).obj).kind va
  pub was_free :
      Free (pages (s.frame (cap_at s fc).obj).len) s.mmu.ram (s.frame (cap_at s tc).obj).pa va 0
  pub writes :
      Written
        (pages (s.frame (cap_at s fc).obj).len)
        s.mmu.ram
        (s.frame (cap_at s tc).obj).pa
        va
        0
        (λ x.
          bit_or
            (((s.frame (cap_at s fc).obj).pa + x) % 2 ^ 32)
            (page_bits (not ((s.frame (cap_at s fc).obj).kind == frame_dev) && cache)))
        t.mmu.ram

-- `frame_map` that succeeds has mapped.
pub frame_map-Mapped :
    (va_max : ℕ) (s : Kernel) (tid cid va : ℕ) (cache : Bool) (tc fc : Slot) (r : ℕ) (t : Kernel)
    → find_frames s tid cid ≡ ok (tc, fc)
    → Separate s.mmu.ram (s.frame (cap_at s tc).obj).pa
    → va + pages (s.frame (cap_at s fc).obj).len * page_size ≤ 2 ^ 32
    → frame_map va_max s tid cid va cache ≡ ok (r, t)
    → Mapped s tc fc va cache r t
unfolding frame_map
frame_map-Mapped va_max s tid cid va cache tc fc r t found sep top e =
    let e₁ = bind-at (find_frames s tid cid) _ found e in
    let (is_l1, e₂) = check-ok _ _ e₁ in
    let (is_page, e₃) = check-ok _ _ e₂ in
    let ((s₁, window), opened, e₄) = bind-ok _ _ e₃ in
    let (same, set) =
      open_window-Window va_max s (s.frame (cap_at s tc).obj).pa 0x4000 s₁ window opened in
    let T = (cap_at s tc).obj in
    let ff = s.frame (cap_at s fc).obj in
    let n = pages ff.len in
    let l1 = (s.frame T).pa in
    let bits = page_bits (not (ff.kind == frame_dev) && cache) in
    let val = λ (x : ℕ). bit_or ((ff.pa + x) % 2 ^ 32) bits in
    let (m, mapped, e₅) = bind-ok (map_loop va_max n s₁.mmu l1 ff.pa va bits 0 none_held) _ e₄ in
    let (free, written) =
      subst (λ (f : ℕ → ℕ). Free n f l1 va 0 × Written n f l1 va 0 val m.ram) same
        (map_loop-Written va_max n s₁.mmu l1 ff.pa va bits 0 none_held m
          (subst (λ (f : ℕ → ℕ). Separate f l1) (sym same) sep) tt (omega arith) mapped) in
    let result = ok-injective e₅ in
    let linked : link_frame (set_mmu s m) T fc ff.kind va ≡ t =
      ap (λ (x : Kernel). link_frame x T fc ff.kind va) (sym (set m))
      ∙ ap (λ (x : ℕ × Kernel). x.1) result in
    let mmu : m ≡ t.mmu = ap (λ (x : Kernel). x.mmu) linked in
    record {
      code = sym (ap (λ (x : ℕ × Kernel). x.0) result);
      is_table = (==_iff _ _).0 is_l1;
      is_page = one_of ff.kind is_page;
      linked = sym linked ∙ ap (λ (x : Mmu). link_frame (set_mmu s x) T fc ff.kind va) mmu;
      was_free = free;
      writes = subst (λ (x : Mmu). Written n s.mmu.ram l1 va 0 val x.ram) mmu written;
    }

-- Where the second-level tables do not overlap one another or the first-level table, and the range of
-- addresses does not wrap, a successful sys_frame_map updates the map from virtual addresses to
-- entries: each page of the range has the entry of the physical page at the same offset of the frame
-- with the bits for its kind and cache, and the entry of every other address is what it was.
pub frame_map-Maps :
    (va_max : ℕ) (s : Kernel) (tid cid va : ℕ) (cache : Bool) (tc fc : Slot) (r : ℕ) (t : Kernel)
    → find_frames s tid cid ≡ ok (tc, fc)
    → Separate s.mmu.ram (s.frame (cap_at s tc).obj).pa
    → va + pages (s.frame (cap_at s fc).obj).len * page_size ≤ 2 ^ 32
    → frame_map va_max s tid cid va cache ≡ ok (r, t)
    → Maps
        (pages (s.frame (cap_at s fc).obj).len)
        s.mmu.ram
        (s.frame (cap_at s tc).obj).pa
        va
        (λ x.
          bit_or
            (((s.frame (cap_at s fc).obj).pa + x) % 2 ^ 32)
            (page_bits (not ((s.frame (cap_at s fc).obj).kind == frame_dev) && cache)))
        t.mmu.ram
frame_map-Maps va_max s tid cid va cache tc fc r t found sep top e =
    let d = frame_map-Mapped va_max s tid cid va cache tc fc r t found sep top e in
    Written-Maps (pages (s.frame (cap_at s fc).obj).len) s.mmu.ram (s.frame (cap_at s tc).obj).pa va
      _ t.mmu.ram sep top d.was_free.there d.writes
