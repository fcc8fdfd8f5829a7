-- ===== src/Kernel/Tables/Unmaps.antt =====
-- The loop of `sys_frame_unmap`: where the entries lead to one frame after another, all are cleared.
use agatha.Prelude.{
  ℕ, zero, suc, ◌+◌, ◌*◌, ◌%◌, ◌^◌, ◌<◌, ◌≤◌, ◌≡◌, sym, ap, ◌∙◌, subst, Bool, true, false, not,
  ◌&&◌, ltb, ◌==◌, if◌then◌else◌, arith, inl, inr, ◌⊎◌, update, update-other,
}
use agatha.Kernel.State.{Mmu, Check, ok, bind-ok, safe-ok, ok-injective}
use agatha.Kernel.Tables.{l1x, l2x, l2pa, page_size, set_word, Held, held, table_for, unmap_loop}
use agatha.Kernel.Tables.Slots.{
  slot, SameL1, IsHeld, Separate, table_for-table, Separate-same, SameL1-write, page, page-first,
  slots_apart,
}
use agatha.Kernel.Tables.Writes.{Written, Written-suc, slot-next, no_pages, write_at, held_after}

-- The entries of the pages lead to the frame at `pa`, page after page.
pub record Leads (n : ℕ) (ram : ℕ → ℕ) (l1 va pa o : ℕ) : Type 0 where
  pub there : (k : ℕ) → k < n → 0 < ram (l1 + 4 * l1x (page va o k))
  pub leads : (k : ℕ) → k < n → l2pa (ram (slot ram l1 (page va o k))) ≡ pa + (o + k * page_size)

there_after :
    (ram ram' : ℕ → ℕ) (l1 va o k : ℕ)
    → SameL1 l1 ram ram'
    → 0 < ram (l1 + 4 * l1x (page va o (suc k)))
    → 0 < ram' (l1 + 4 * l1x (page va (o + page_size) k))
there_after ram ram' l1 va o k same h =
    subst (λ x. 0 < x) (sym (same (l1x (page va (o + page_size) k)) (omega arith)))
      (subst (λ x. 0 < ram (l1 + 4 * l1x x)) (next va o k) h)
  where
    next : (va o k : ℕ) → page va o (suc k) ≡ page va (o + page_size) k
    next va o k = omega arith

offset-next : (pa o k : ℕ) → pa + (o + suc k * page_size) ≡ pa + (o + page_size + k * page_size)
offset-next pa o k = omega arith

Leads-next :
    (n : ℕ) (ram : ℕ → ℕ) (l1 va pa o : ℕ)
    → Separate ram l1
    → va + (o + suc n * page_size) ≤ 2 ^ 32
    → Leads (suc n) ram l1 va pa o
    → 0 < ram (l1 + 4 * l1x (va + o))
    → Leads n (update ram (slot ram l1 (va + o)) 0) l1 va pa (o + page_size)
Leads-next n ram l1 va pa o s top d p = record {
  there = λ k lt. there_after ram (update ram a 0) l1 va o k same (d.there (suc k) (omega arith));
  leads = λ k lt.
      ap (λ x. l2pa (update ram a 0 x)) (slot-next ram (update ram a 0) l1 va o k same)
      ∙ ap l2pa (
          update-other ram a (slot ram l1 (page va o (suc k))) 0
            (λ e. slots_apart ram l1 va o k n s top lt p (d.there (suc k) (omega arith)) (sym e)))
      ∙ d.leads (suc k) (omega arith)
      ∙ offset-next pa o k;
}
  where
    a : ℕ
    a = slot ram l1 (va + o)

    same : SameL1 l1 ram (update ram a 0)
    same = SameL1-write ram l1 (va + o) 0 s p

-- The loop does not stop at an entry that goes on from the first one.
goes_on :
    (pa o first e : ℕ)
    → 0 < pa
    → pa + o < 2 ^ 32
    → (first ≡ pa) ⊎ ((first ≡ 0) × (o ≡ 0))
    → l2pa e ≡ pa + o
    → ((ltb 0 first && not (l2pa e == (first + o) % 2 ^ 32)) ≡ false)
      × ((if first == 0 then l2pa e else first) ≡ pa)
goes_on pa o first e pos top (inl q) lead = ground arith
goes_on pa o first e pos top (inr q) lead = ground arith

else_branch : {b : Bool} (x y z : Check Mmu) → b ≡ false → (if b then x else y) ≡ z → y ≡ z
else_branch {b = true} x y z e h = cc
else_branch {b = false} x y z e h = h

-- `unmap_loop` that succeeds clears the pages of a frame that is not at physical address 0.
pub unmap_loop-Written :
    (va_max n : ℕ) (m : Mmu) (l1 va pa first o : ℕ) (h : Held) (t : Mmu)
    → Separate m.ram l1
    → IsHeld m.ram l1 h
    → va + (o + n * page_size) ≤ 2 ^ 32
    → pa + (o + n * page_size) ≤ 2 ^ 32
    → 0 < pa
    → (first ≡ pa) ⊎ ((first ≡ 0) × (o ≡ 0))
    → Leads n m.ram l1 va pa o
    → unmap_loop va_max n m l1 va first o h ≡ ok t
    → Written n m.ram l1 va o (λ _. 0) t.ram
unfolding unmap_loop
unmap_loop-Written va_max zero m l1 va pa first o h t s is top top' pos began d e =
    no_pages m.ram l1 va o _ t.ram (ap (λ (x : Mmu). x.ram) (sym (ok-injective e)))
unmap_loop-Written va_max (suc n) m l1 va pa first o h t s is top top' pos began d e =
    let ((u, table), opened, e₁) = bind-ok (table_for va_max m l1 (va + o) h) _ e in
    let (same, right, p) = table_for-table va_max m l1 (va + o) h u table is opened in
    let (used, e₂) = safe-ok _ _ e₁ in
    let a = slot m.ram l1 (va + o) in
    let at : table + 4 * l2x (va + o) ≡ a = ap (λ x. x + 4 * l2x (va + o)) right in
    let entry : u.ram (table + 4 * l2x (va + o)) ≡ m.ram a =
      ap u.ram at ∙ ap (λ (f : ℕ → ℕ). f a) same in
    let lead : l2pa (u.ram (table + 4 * l2x (va + o))) ≡ pa + o =
      ap l2pa entry
      ∙ ap (λ x. l2pa (m.ram (slot m.ram l1 x))) (sym (page-first va o))
      ∙ d.leads 0 (omega arith)
      ∙ omega arith in
    let (on, begins) =
      goes_on pa o first (u.ram (table + 4 * l2x (va + o))) pos (omega arith) began lead in
    let wrote = write_at m.ram u.ram (table + 4 * l2x (va + o)) a 0 same at in
    let keeps = SameL1-write m.ram l1 (va + o) 0 s p in
    let writes =
      unmap_loop-Written va_max n (set_word u (table + 4 * l2x (va + o)) 0) l1 va pa
        (if first == 0 then l2pa (u.ram (table + 4 * l2x (va + o))) else first) (o + page_size)
        (held (l1x (va + o)) table) t
        (subst (λ (f : ℕ → ℕ). Separate f l1) (sym wrote)
          (Separate-same m.ram (update m.ram a 0) l1 keeps s))
        (subst (λ (f : ℕ → ℕ). IsHeld f l1 (held (l1x (va + o)) table)) (sym wrote)
          (held_after m.ram (update m.ram a 0) l1 (va + o) table keeps right p))
        (omega arith) (omega arith) pos (inl begins)
        (subst (λ (f : ℕ → ℕ). Leads n f l1 va pa (o + page_size)) (sym wrote)
          (Leads-next n m.ram l1 va pa o s top d p))
        (else_branch _ _ _ on e₂) in
    Written-suc n m.ram l1 va o (λ _. 0) t.ram s top p (λ k lt. d.there (suc k) (omega arith))
      (subst (λ (f : ℕ → ℕ). Written n f l1 va (o + page_size) (λ _. 0) t.ram) wrote writes)
