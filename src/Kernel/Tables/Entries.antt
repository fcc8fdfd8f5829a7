-- ===== src/Kernel/Tables/Entries.antt =====
-- What the page tables say of an address, whatever tables they are made of.
use agatha.Prelude.{
  ℕ, ◌+◌, ◌*◌, ◌/◌, ◌^◌, ◌<◌, ◌≤◌, ◌≡◌, ◌≢◌, refl, sym, ap, ◌∙◌, subst, false, ◌==◌, if◌then◌else◌,
  Bool-cases, inl, inr, arith,
}
use agatha.Kernel.Tables.{l1x, l2x, l1pa, page_size}
use agatha.Kernel.Tables.Slots.{slot, SameL1, Separate, slot-same, l1x-lt, page}
use agatha.Kernel.Tables.Writes.{Written}

-- The second-level entry for an address, 0 where there is no second-level table.
abbrev pub entry : (ℕ → ℕ) → (l1 v : ℕ) → ℕ
entry ram l1 v = if ram (l1 + 4 * l1x v) == 0 then 0 else ram (slot ram l1 v)

-- As a map from addresses to entries: the pages from `va` on have the values of their offsets, and no
-- other page has changed.
pub record Maps (n : ℕ) (ram : ℕ → ℕ) (l1 va : ℕ) (val : ℕ → ℕ) (ram' : ℕ → ℕ) : Type 0 where
  pub inside :
      (v k : ℕ)
      → v < 2 ^ 32
      → k < n
      → v / page_size ≡ page va 0 k / page_size
      → entry ram' l1 v ≡ val (k * page_size)
  pub outside :
      (v : ℕ)
      → v < 2 ^ 32
      → ((k : ℕ) → k < n → v / page_size ≢ page va 0 k / page_size)
      → entry ram' l1 v ≡ entry ram l1 v

entry-there :
    (ram : ℕ → ℕ) (l1 v : ℕ) → 0 < ram (l1 + 4 * l1x v) → entry ram l1 v ≡ ram (slot ram l1 v)
entry-there ram l1 v p = let e : (ram (l1 + 4 * l1x v) == 0) ≡ false = ground arith in rw e refl

same_entry :
    (v w : ℕ)
    → v < 2 ^ 32
    → w < 2 ^ 32
    → v / page_size ≡ w / page_size
    → (l1x v ≡ l1x w) × (l2x v ≡ l2x w)
same_entry v w lt lt' e = (omega arith, omega arith)

same_page :
    (v w : ℕ)
    → v < 2 ^ 32
    → w < 2 ^ 32
    → l1x v ≡ l1x w
    → l2x v ≡ l2x w
    → v / page_size ≡ w / page_size
same_page v w lt lt' e e' = omega arith

entry-page :
    (ram : ℕ → ℕ) (l1 v w : ℕ)
    → v < 2 ^ 32
    → w < 2 ^ 32
    → v / page_size ≡ w / page_size
    → entry ram l1 v ≡ entry ram l1 w
entry-page ram l1 v w lt lt' e =
    let (a, b) = same_entry v w lt lt' e in
    ap (λ x. if ram (l1 + 4 * x) == 0 then 0 else ram (l1pa (ram (l1 + 4 * x)) + 4 * l2x v)) a
    ∙ ap (λ y. if ram (l1 + 4 * l1x w) == 0 then 0 else ram (l1pa (ram (l1 + 4 * l1x w)) + 4 * y)) b

page_below : (n k va : ℕ) → va + n * page_size ≤ 2 ^ 32 → k < n → page va 0 k < 2 ^ 32
page_below n k va top lt = omega arith

from_zero : (k : ℕ) → 0 + k * page_size ≡ k * page_size
from_zero k = omega arith

-- Writing the entries of the pages is an update of that map.
module _ (n : ℕ) (ram : ℕ → ℕ) (l1 va : ℕ) (val ram' : ℕ → ℕ) (s : Separate ram l1)
    (top : va + n * page_size ≤ 2 ^ 32)
    (there : (k : ℕ) → k < n → 0 < ram (l1 + 4 * l1x (page va 0 k)))
    (w : Written n ram l1 va 0 val ram') where
  pub Written-SameL1 : SameL1 l1 ram ram'
  Written-SameL1 j lt =
      w.others (l1 + 4 * j) (λ k k_lt e. s.first (page va 0 k) j (there k k_lt) lt (sym e))

  page-lt : (k : ℕ) → k < n → page va 0 k < 2 ^ 32
  page-lt k lt = page_below n k va top lt

  inside :
      (v k : ℕ)
      → v < 2 ^ 32
      → k < n
      → v / page_size ≡ page va 0 k / page_size
      → entry ram' l1 v ≡ val (k * page_size)
  inside v k lt k_lt e =
      let p = page va 0 k in
      let same = Written-SameL1 in
      entry-page ram' l1 v p lt (page-lt k k_lt) e
      ∙ entry-there ram' l1 p (subst (λ x. 0 < x) (sym (same (l1x p) (l1x-lt p))) (there k k_lt))
      ∙ ap ram' (slot-same ram ram' l1 p same)
      ∙ w.written k k_lt
      ∙ ap val (from_zero k)

  outside :
      (v : ℕ)
      → v < 2 ^ 32
      → ((k : ℕ) → k < n → v / page_size ≢ page va 0 k / page_size)
      → entry ram' l1 v ≡ entry ram l1 v
  outside v lt h =
      let same = Written-SameL1 in
      let first = same (l1x v) (l1x-lt v) in
      elim (Bool-cases (ram (l1 + 4 * l1x v) == 0)) [
        | inl e ↦ rw (first, e) refl
        | inr e ↦
            let p : 0 < ram (l1 + 4 * l1x v) = ground arith in
            entry-there ram' l1 v (subst (λ x. 0 < x) (sym first) p)
            ∙ ap ram' (slot-same ram ram' l1 v same)
            ∙ w.others (slot ram l1 v) (λ k k_lt q.
              let (a, b) = s.tables v (page va 0 k) p (there k k_lt) q in
              h k k_lt (same_page v (page va 0 k) lt (page-lt k k_lt) a b))
            ∙ sym (entry-there ram l1 v p)
      ]

  pub Written-Maps : Maps n ram l1 va val ram'
  Written-Maps = record { inside = inside; outside = outside }
