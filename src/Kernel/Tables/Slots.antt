-- ===== src/Kernel/Tables/Slots.antt =====
-- What the loops over pages write: the second-level entry of each page, and nothing else.
use agatha.Prelude.{
  ℕ, suc, ◌+◌, ◌*◌, ◌^◌, ◌<◌, ◌≤◌, ◌≡◌, ◌≢◌, sym, ap, ◌∙◌, subst, ltb→lt, ◌==◌, ==_iff, Bool-cases,
  inl, inr, arith, update, update-other,
}
use agatha.Kernel.State.{Mmu, ok, bind-ok, safe-ok, ok-injective}
use agatha.Kernel.Tables.{
  l1x, l2x, l1pa, page_size, kernel_map, open_table, Held, none_held, held, table_for,
}

-- Where the second-level entry for an address is.
abbrev pub slot : (ℕ → ℕ) → (l1 v : ℕ) → ℕ
slot ram l1 v = l1pa (ram (l1 + 4 * l1x v)) + 4 * l2x v

-- The first-level entries do not change.
abbrev pub SameL1 : ℕ → (ram ram' : ℕ → ℕ) → Type 0
SameL1 l1 ram ram' = (j : ℕ) → j < 4096 → ram' (l1 + 4 * j) ≡ ram (l1 + 4 * j)

-- The second-level table for an address.
abbrev pub table_of : (ℕ → ℕ) → (l1 v : ℕ) → ℕ
table_of ram l1 v = l1pa (ram (l1 + 4 * l1x v))

-- The table that is held is the right one.
abbrev pub IsHeld : (ℕ → ℕ) → (l1 : ℕ) → Held → Type 0
IsHeld ram l1 none_held = Unit
IsHeld ram l1 (held x table) = (table ≡ l1pa (ram (l1 + 4 * x))) × (0 < ram (l1 + 4 * x))

open_table-table :
    (va_max : ℕ) (m : Mmu) (l1 v : ℕ) (t : Mmu) (table : ℕ)
    → open_table va_max m l1 v ≡ ok (t, table)
    → (t.ram ≡ m.ram) × (table ≡ table_of m.ram l1 v) × (0 < m.ram (l1 + 4 * l1x v))
unfolding open_table
open_table-table va_max m l1 v t table h =
    let (there, h₁) = safe-ok _ _ h in
    let (w, mapped, h₂) =
      bind-ok (kernel_map va_max m.va_next (table_of m.ram l1 v) page_size) _ h₁ in
    let e = ok-injective h₂ in
    (ap (λ (x : Mmu × ℕ). x.0.ram) (sym e), ap (λ (x : Mmu × ℕ). x.1) (sym e), ltb→lt _ _ there)

pub table_for-table :
    (va_max : ℕ) (m : Mmu) (l1 v : ℕ) (h : Held) (t : Mmu) (table : ℕ)
    → IsHeld m.ram l1 h
    → table_for va_max m l1 v h ≡ ok (t, table)
    → (t.ram ≡ m.ram) × (table ≡ table_of m.ram l1 v) × (0 < m.ram (l1 + 4 * l1x v))
unfolding table_for
table_for-table va_max m l1 v none_held t table is e = open_table-table va_max m l1 v t table e
table_for-table va_max m l1 v (held x table') t table is e = elim (Bool-cases (l1x v == x)) [
  | inl q ↦
      let same : l1x v ≡ x = (==_iff (l1x v) x).0 q in
      let k = ok-injective (rw q at e) in
      (
        ap (λ (p : Mmu × ℕ). p.0.ram) (sym k),
        ap (λ (p : Mmu × ℕ). p.1) (sym k) ∙ is.0 ∙ ap (λ y. l1pa (m.ram (l1 + 4 * y))) (sym same),
        subst (λ y. 0 < m.ram (l1 + 4 * y)) (sym same) is.1,
      )
  | inr q ↦ open_table-table va_max m l1 v t table (rw q at e)
]

-- Different second-level tables do not overlap, and none overlaps the first-level table.
pub record Separate (ram : ℕ → ℕ) (l1 : ℕ) : Type 0 where
  pub tables :
      (v v' : ℕ)
      → 0 < ram (l1 + 4 * l1x v)
      → 0 < ram (l1 + 4 * l1x v')
      → slot ram l1 v ≡ slot ram l1 v'
      → (l1x v ≡ l1x v') × (l2x v ≡ l2x v')
  pub first : (v j : ℕ) → 0 < ram (l1 + 4 * l1x v) → j < 4096 → slot ram l1 v ≢ l1 + 4 * j

pub l1x-lt : (v : ℕ) → l1x v < 4096
l1x-lt v = omega arith

pub slot-same : (ram ram' : ℕ → ℕ) (l1 v : ℕ) → SameL1 l1 ram ram' → slot ram' l1 v ≡ slot ram l1 v
slot-same ram ram' l1 v h = ap (λ e. l1pa e + 4 * l2x v) (h (l1x v) (l1x-lt v))

pub Separate-same :
    (ram ram' : ℕ → ℕ) (l1 : ℕ) → SameL1 l1 ram ram' → Separate ram l1 → Separate ram' l1
Separate-same ram ram' l1 h s = record {
  tables = λ v v' p p' e.
      s.tables v v' (subst (λ x. 0 < x) (h (l1x v) (l1x-lt v)) p)
        (subst (λ x. 0 < x) (h (l1x v') (l1x-lt v')) p')
        (sym (slot-same ram ram' l1 v h) ∙ e ∙ slot-same ram ram' l1 v' h);
  first = λ v j p lt e.
      s.first v j (subst (λ x. 0 < x) (h (l1x v) (l1x-lt v)) p) lt
        (sym (slot-same ram ram' l1 v h) ∙ e);
}

-- A write to a second-level entry leaves the first level alone.
pub SameL1-write :
    (ram : ℕ → ℕ) (l1 v x : ℕ)
    → Separate ram l1
    → 0 < ram (l1 + 4 * l1x v)
    → SameL1 l1 ram (update ram (slot ram l1 v) x)
SameL1-write ram l1 v x s p j lt =
    update-other ram (slot ram l1 v) (l1 + 4 * j) x (λ e. s.first v j p lt (sym e))

-- The address of a page of a range that begins at `va + o`.
abbrev pub page : (va o k : ℕ) → ℕ
page va o k = va + (o + k * page_size)

pub page-next : (va o k : ℕ) → page va (o + page_size) k ≡ page va o (suc k)
page-next va o k = omega arith

pub page-first : (va o : ℕ) → page va o 0 ≡ va + o
page-first va o = omega arith

pages_apart :
    (va o k n : ℕ)
    → va + (o + suc n * page_size) ≤ 2 ^ 32
    → k < n
    → (l1x (va + o) ≡ l1x (page va o (suc k)))
    → (l2x (va + o) ≡ l2x (page va o (suc k)))
    → ⊥
pages_apart va o k n h lt e f = omega arith

-- The entries for two pages of one range are at different places.
pub slots_apart :
    (ram : ℕ → ℕ) (l1 va o k n : ℕ)
    → Separate ram l1
    → va + (o + suc n * page_size) ≤ 2 ^ 32
    → k < n
    → 0 < ram (l1 + 4 * l1x (va + o))
    → 0 < ram (l1 + 4 * l1x (page va o (suc k)))
    → slot ram l1 (va + o) ≢ slot ram l1 (page va o (suc k))
slots_apart ram l1 va o k n s h lt p p' e =
    let (a, b) = s.tables (va + o) (page va o (suc k)) p p' e in pages_apart va o k n h lt a b
