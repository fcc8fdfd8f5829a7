-- ===== src/Kernel/Tables/Maps.antt =====
-- The loop of `sys_frame_map`: every page of the range is mapped, and nothing else is written.
use agatha.Prelude.{
  ℕ, zero, suc, ◌+◌, ◌*◌, ◌%◌, ◌^◌, ◌<◌, ◌≤◌, ◌≡◌, sym, ap, ◌∙◌, subst, ==_iff, arith, update,
  update-other, bit_or,
}
use agatha.Kernel.State.{Mmu, ok, bind-ok, safe-ok, ok-injective}
use agatha.Kernel.Tables.{l1x, l2x, page_size, set_word, Held, held, table_for, map_loop}
use agatha.Kernel.Tables.Slots.{
  slot, SameL1, IsHeld, Separate, table_for-table, Separate-same, SameL1-write, page, page-first,
  slots_apart,
}
use agatha.Kernel.Tables.Writes.{
  Written, Written-suc, slot-next, there_before, no_pages, write_at, held_after,
}

-- Every page of a range has a second-level table, and its entry there is free.
pub record Free (n : ℕ) (ram : ℕ → ℕ) (l1 va o : ℕ) : Type 0 where
  pub there : (k : ℕ) → k < n → 0 < ram (l1 + 4 * l1x (page va o k))
  pub free : (k : ℕ) → k < n → ram (slot ram l1 (page va o k)) ≡ 0

module _ (n : ℕ) (ram : ℕ → ℕ) (l1 va o v : ℕ) (s : Separate ram l1)
    (top : va + (o + suc n * page_size) ≤ 2 ^ 32) (p : 0 < ram (l1 + 4 * l1x (va + o))) where
  -- What is free after the first entry was written was free before.
  Free-suc :
      ram (slot ram l1 (va + o)) ≡ 0
      → Free n (update ram (slot ram l1 (va + o)) v) l1 va (o + page_size)
      → Free (suc n) ram l1 va o
  Free-suc empty m = record { there = there; free = free }
    where
      a : ℕ
      a = slot ram l1 (va + o)

      same : SameL1 l1 ram (update ram a v)
      same = SameL1-write ram l1 (va + o) v s p

      there_later : (k : ℕ) → k < n → 0 < ram (l1 + 4 * l1x (page va o (suc k)))
      there_later k lt = there_before ram (update ram a v) l1 va o k same (m.there k lt)

      there : (k : ℕ) → k < suc n → 0 < ram (l1 + 4 * l1x (page va o k))
      there zero lt = subst (λ x. 0 < ram (l1 + 4 * l1x x)) (sym (page-first va o)) p
      there (suc k) lt = there_later k (omega arith)

      free : (k : ℕ) → k < suc n → ram (slot ram l1 (page va o k)) ≡ 0
      free zero lt = ap (λ x. ram (slot ram l1 x)) (page-first va o) ∙ empty
      free (suc k) lt =
          sym (
            update-other ram a (slot ram l1 (page va o (suc k))) v (λ e.
              slots_apart ram l1 va o k n s top (omega arith) p (there_later k (omega arith))
                (sym e)))
          ∙ ap (update ram a v) (sym (slot-next ram (update ram a v) l1 va o k same))
          ∙ m.free k (omega arith)

-- `map_loop` that succeeds maps the pages: their entries were free.
pub map_loop-Written :
    (va_max n : ℕ) (m : Mmu) (l1 pa va perm o : ℕ) (h : Held) (t : Mmu)
    → Separate m.ram l1
    → IsHeld m.ram l1 h
    → va + (o + n * page_size) ≤ 2 ^ 32
    → map_loop va_max n m l1 pa va perm o h ≡ ok t
    → Free n m.ram l1 va o × Written n m.ram l1 va o (λ x. bit_or ((pa + x) % 2 ^ 32) perm) t.ram
unfolding map_loop
map_loop-Written va_max zero m l1 pa va perm o h t s is top e = (
  record { there = λ k lt. absurd (omega arith); free = λ k lt. absurd (omega arith) },
  no_pages m.ram l1 va o _ t.ram (ap (λ (x : Mmu). x.ram) (sym (ok-injective e))),
)
map_loop-Written va_max (suc n) m l1 pa va perm o h t s is top e =
    let ((u, table), opened, e₁) = bind-ok (table_for va_max m l1 (va + o) h) _ e in
    let (same, right, p) = table_for-table va_max m l1 (va + o) h u table is opened in
    let (empty, e₂) = safe-ok _ _ e₁ in
    let a = slot m.ram l1 (va + o) in
    let val = λ (x : ℕ). bit_or ((pa + x) % 2 ^ 32) perm in
    let at : table + 4 * l2x (va + o) ≡ a = ap (λ x. x + 4 * l2x (va + o)) right in
    let wrote = write_at m.ram u.ram (table + 4 * l2x (va + o)) a (val o) same at in
    let keeps = SameL1-write m.ram l1 (va + o) (val o) s p in
    let free : m.ram a ≡ 0 =
      sym (ap (λ (f : ℕ → ℕ). f a) same) ∙ ap u.ram (sym at) ∙ (==_iff _ _).0 empty in
    let (frees, writes) =
      map_loop-Written va_max n (set_word u (table + 4 * l2x (va + o)) (val o)) l1 pa va perm
        (o + page_size) (held (l1x (va + o)) table) t
        (subst (λ (f : ℕ → ℕ). Separate f l1) (sym wrote)
          (Separate-same m.ram (update m.ram a (val o)) l1 keeps s))
        (subst (λ (f : ℕ → ℕ). IsHeld f l1 (held (l1x (va + o)) table)) (sym wrote)
          (held_after m.ram (update m.ram a (val o)) l1 (va + o) table keeps right p))
        (omega arith) e₂ in
    let frees' = subst (λ (f : ℕ → ℕ). Free n f l1 va (o + page_size)) wrote frees in
    let all = Free-suc n m.ram l1 va o (val o) s top p free frees' in
    (
      all,
      Written-suc n m.ram l1 va o val t.ram s top p (λ k lt. all.there (suc k) (omega arith))
          (subst (λ (f : ℕ → ℕ). Written n f l1 va (o + page_size) val t.ram) wrote writes),
    )
