-- ===== src/Kernel/Tables/Writes.antt =====
-- Writing the entries of consecutive pages, one after another.
use agatha.Prelude.{
  ℕ, zero, suc, ◌+◌, ◌*◌, ◌^◌, ◌<◌, ◌≤◌, ◌≡◌, ◌≢◌, sym, ap, ◌∙◌, subst, arith, update, update-same,
  update-other,
}
use agatha.Kernel.Tables.{l1x, l1pa, page_size, held}
use agatha.Kernel.Tables.Slots.{
  slot, SameL1, IsHeld, Separate, slot-same, SameL1-write, l1x-lt, page, page-next, page-first,
  slots_apart,
}

-- After `n` pages from offset `o` on: the entry of each has the value for its offset, and no other word
-- has changed.
pub record Written (n : ℕ) (ram : ℕ → ℕ) (l1 va o : ℕ) (val : ℕ → ℕ) (ram' : ℕ → ℕ) : Type 0 where
  pub written : (k : ℕ) → k < n → ram' (slot ram l1 (page va o k)) ≡ val (o + k * page_size)
  pub others : (a : ℕ) → ((k : ℕ) → k < n → a ≢ slot ram l1 (page va o k)) → ram' a ≡ ram a

pub slot-next :
    (ram ram' : ℕ → ℕ) (l1 va o k : ℕ)
    → SameL1 l1 ram ram'
    → slot ram' l1 (page va (o + page_size) k) ≡ slot ram l1 (page va o (suc k))
slot-next ram ram' l1 va o k same =
    slot-same ram ram' l1 (page va (o + page_size) k) same ∙ ap (slot ram l1) (page-next va o k)

pub there_before :
    (ram ram' : ℕ → ℕ) (l1 va o k : ℕ)
    → SameL1 l1 ram ram'
    → 0 < ram' (l1 + 4 * l1x (page va (o + page_size) k))
    → 0 < ram (l1 + 4 * l1x (page va o (suc k)))
there_before ram ram' l1 va o k same h =
    subst (λ x. 0 < ram (l1 + 4 * l1x x)) (page-next va o k)
      (subst (λ x. 0 < x)
        (same (l1x (page va (o + page_size) k)) (l1x-lt (page va (o + page_size) k))) h)

pub no_pages :
    (ram : ℕ → ℕ) (l1 va o : ℕ) (val : ℕ → ℕ) (ram' : ℕ → ℕ)
    → ram' ≡ ram
    → Written 0 ram l1 va o val ram'
no_pages ram l1 va o val ram' e = record {
  written = λ k lt. absurd (omega arith);
  others = λ a _. ap (λ (f : ℕ → ℕ). f a) e;
}

offset-next : (o k : ℕ) → o + page_size + k * page_size ≡ o + suc k * page_size
offset-next o k = omega arith

-- One page more at the front.
pub Written-suc :
    (n : ℕ) (ram : ℕ → ℕ) (l1 va o : ℕ) (val : ℕ → ℕ) (ram' : ℕ → ℕ)
    → Separate ram l1
    → va + (o + suc n * page_size) ≤ 2 ^ 32
    → 0 < ram (l1 + 4 * l1x (va + o))
    → ((k : ℕ) → k < n → 0 < ram (l1 + 4 * l1x (page va o (suc k))))
    → Written n (update ram (slot ram l1 (va + o)) (val o)) l1 va (o + page_size) val ram'
    → Written (suc n) ram l1 va o val ram'
Written-suc n ram l1 va o val ram' s top p there_later m = record {
  written = written;
  others = others;
}
  where
    a : ℕ
    a = slot ram l1 (va + o)

    same : SameL1 l1 ram (update ram a (val o))
    same = SameL1-write ram l1 (va + o) (val o) s p

    later :
        (k : ℕ)
        → slot (update ram a (val o)) l1 (page va (o + page_size) k)
          ≡ slot ram l1 (page va o (suc k))
    later k = slot-next ram (update ram a (val o)) l1 va o k same

    written : (k : ℕ) → k < suc n → ram' (slot ram l1 (page va o k)) ≡ val (o + k * page_size)
    written zero lt =
        ap (λ x. ram' (slot ram l1 x)) (page-first va o)
        ∙ m.others a
            (λ k lt e. slots_apart ram l1 va o k n s top lt p (there_later k lt) (e ∙ later k))
        ∙ update-same ram a (val o)
        ∙ ap val (omega arith)
    written (suc k) lt =
        ap ram' (sym (later k)) ∙ m.written k (omega arith) ∙ ap val (offset-next o k)

    others : (b : ℕ) → ((k : ℕ) → k < suc n → b ≢ slot ram l1 (page va o k)) → ram' b ≡ ram b
    others b h =
        m.others b (λ k lt e. h (suc k) (omega arith) (e ∙ later k))
        ∙ update-other ram a b (val o)
            (λ e. h 0 (omega arith) (e ∙ ap (slot ram l1) (sym (page-first va o))))

pub write_at :
    (ram ram' : ℕ → ℕ) (a b v : ℕ) → ram' ≡ ram → a ≡ b → update ram' a v ≡ update ram b v
write_at ram ram' a b v same at =
    ap (λ (f : ℕ → ℕ). update f a v) same ∙ ap (λ x. update ram x v) at

pub held_after :
    (ram ram' : ℕ → ℕ) (l1 v table : ℕ)
    → SameL1 l1 ram ram'
    → table ≡ l1pa (ram (l1 + 4 * l1x v))
    → 0 < ram (l1 + 4 * l1x v)
    → IsHeld ram' l1 (held (l1x v) table)
held_after ram ram' l1 v table same right p =
    let e = same (l1x v) (omega arith) in (right ∙ ap l1pa (sym e), subst (λ x. 0 < x) (sym e) p)
