-- ===== src/Kernel/Tables/Restored.antt =====
-- Pages that are mapped and then unmapped: the tables are as before.
use agatha.Prelude.{
  ℕ, zero, suc, ◌+◌, ◌*◌, ◌/◌, ◌%◌, ◌^◌, ◌<◌, ◌≤◌, ◌≡◌, ◌≢◌, refl, sym, ap, ◌∙◌, subst, fun_ext,
  ◌==◌, ==_iff, Bool-cases, false, true-ne-false, ◌⊎◌, inl, inr, arith, bit_or, bit_or_512,
}
use agatha.Kernel.State.{Mmu, ok}
use agatha.Kernel.Tables.{l1x, l2pa, page_size, none_held, unmap_loop}
use agatha.Kernel.Tables.Slots.{slot, SameL1, Separate, Separate-same, slot-same, l1x-lt, page}
use agatha.Kernel.Tables.Maps.{Free}
use agatha.Kernel.Tables.Writes.{Written}
use agatha.Kernel.Tables.Unmaps.{Leads, unmap_loop-Written}
use agatha.Kernel.Tables.Entries.{Written-SameL1}

l2pa-parts : (x bits : ℕ) → x % 512 ≡ 0 → bits < 512 → l2pa (x / 512 * 512 + bits) ≡ x
l2pa-parts x bits aligned small = omega arith

not_last :
    (n k : ℕ) (f : ℕ → ℕ) (a : ℕ)
    → ((j : ℕ) → j < n → a ≢ f j)
    → (a == f n) ≡ false
    → k < suc n
    → a ≢ f k
not_last n k f a below e lt q = elim (Bool-cases (k == n)) [
  | inl last ↦
      let at : a ≡ f n = q ∙ ap f ((==_iff k n).0 last) in
      true-ne-false (sym ((==_iff a (f n)).1 at) ∙ e)
  | inr earlier ↦ below k (ground arith) q
]

-- An entry leads to its page, whatever its other bits.
l2pa-bits :
    (x bits : ℕ) → x < 2 ^ 32 → x % 512 ≡ 0 → bits < 512 → l2pa (bit_or (x % 2 ^ 32) bits) ≡ x
l2pa-bits x bits lt aligned small =
    let e : x % 2 ^ 32 ≡ x / 512 * 512 = omega arith in
    ap (λ y. l2pa (bit_or y bits)) e
    ∙ ap l2pa (bit_or_512 (x / 512) bits small)
    ∙ l2pa-parts x bits aligned small

in_page : (n k pa : ℕ) → pa + n * page_size ≤ 2 ^ 32 → k < n → pa + (0 + k * page_size) < 2 ^ 32
in_page n k pa top lt = omega arith

aligned_page : (k pa : ℕ) → pa % page_size ≡ 0 → (pa + (0 + k * page_size)) % 512 ≡ 0
aligned_page k pa h = omega arith

-- Whether an address is the entry of one of the pages.
slot_or_other :
    (n : ℕ) (f : ℕ → ℕ) (a : ℕ) → ((k : ℕ) × (k < n) × (a ≡ f k)) ⊎ ((k : ℕ) → k < n → a ≢ f k)
slot_or_other zero f a = inr (λ k lt. absurd (omega arith))
slot_or_other (suc n) f a = elim (slot_or_other n f a) [
  | inl (k, lt, e) ↦ inl (k, omega arith, e)
  | inr none_below ↦ elim (Bool-cases (a == f n)) [
    | inl e ↦ inl (n, omega arith, (==_iff a (f n)).0 e)
    | inr e ↦ inr (λ k lt. not_last n k f a none_below e lt)
  ]
]

module _ (n : ℕ) (ram : ℕ → ℕ) (l1 va pa bits : ℕ) (ram' : ℕ → ℕ) (s : Separate ram l1)
    (top : va + n * page_size ≤ 2 ^ 32) (free : Free n ram l1 va 0)
    (w : Written n ram l1 va 0 (λ x. bit_or ((pa + x) % 2 ^ 32) bits) ram') where
  same : SameL1 l1 ram ram'
  same = Written-SameL1 n ram l1 va _ ram' s top free.there w

  Separate-after : Separate ram' l1
  Separate-after = Separate-same ram ram' l1 same s

  Leads-after :
      pa + n * page_size ≤ 2 ^ 32 → pa % page_size ≡ 0 → bits < 512 → Leads n ram' l1 va pa 0
  Leads-after top' aligned small = record {
    there = λ k lt.
        subst (λ x. 0 < x) (sym (same (l1x (page va 0 k)) (l1x-lt (page va 0 k))))
          (free.there k lt);
    leads = λ k lt.
        ap (λ a. l2pa (ram' a)) (slot-same ram ram' l1 (page va 0 k) same)
        ∙ ap l2pa (w.written k lt)
        ∙ l2pa-bits (pa + (0 + k * page_size)) bits (in_page n k pa top' lt)
            (aligned_page k pa aligned) small;
  }

  restored : (ram'' : ℕ → ℕ) → Written n ram' l1 va 0 (λ _. 0) ram'' → ram'' ≡ ram
  restored ram'' w' = fun_ext λ a. elim (slot_or_other n (λ k. slot ram l1 (page va 0 k)) a) [
    | inl (k, lt, e) ↦
        ap ram'' (e ∙ sym (slot-same ram ram' l1 (page va 0 k) same))
        ∙ w'.written k lt
        ∙ sym (free.free k lt)
        ∙ ap ram (sym e)
    | inr h ↦
        w'.others a (λ k lt e. h k lt (e ∙ slot-same ram ram' l1 (page va 0 k) same)) ∙ w.others a h
  ]

  pub unmap_loop-restored :
      (va_max : ℕ) (m u : Mmu)
      → m.ram ≡ ram'
      → pa + n * page_size ≤ 2 ^ 32
      → pa % page_size ≡ 0
      → 0 < pa
      → bits < 512
      → unmap_loop va_max n m l1 va 0 0 none_held ≡ ok u
      → u.ram ≡ ram
  unmap_loop-restored va_max m u e top' aligned pos small cleared = restored u.ram (
      subst (λ (f : ℕ → ℕ). Written n f l1 va 0 (λ _. 0) u.ram) e
        (unmap_loop-Written va_max n m l1 va pa 0 0 none_held u
          (subst (λ (f : ℕ → ℕ). Separate f l1) (sym e) Separate-after) tt (omega arith)
          (omega arith) pos (inr (refl, refl))
          (subst (λ (f : ℕ → ℕ). Leads n f l1 va pa 0) (sym e) (Leads-after top' aligned small))
          cleared))
