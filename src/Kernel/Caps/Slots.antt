-- ===== src/Kernel/Caps/Slots.antt =====
-- Writes to capability slots.
use agatha.Prelude.{
  ◌≡◌, ◌≢◌, refl, sym, ap, ◌∙◌, ◌==◌, ==_iff, Bool-cases, inl, inr, update-same, update-other,
}
use agatha.Kernel.State.{Cap, Slot, Kernel, cap_at, set_cap}

abbrev pub SameSlot : Slot → Slot → Type 0
SameSlot c d = (c.list ≡ d.list) × (c.index ≡ d.index)

-- What a write to one capability leaves alone.
pub cap_at-set_cap :
    (s : Kernel) (nc d : Slot) (v : Cap)
    → ¬ (SameSlot d nc)
    → cap_at (set_cap s nc v) d ≡ cap_at s d
cap_at-set_cap s nc d v h = elim (Bool-cases (d.list == nc.list)) [
  | inl l ↦
      let same = (==_iff d.list nc.list).0 l in
      rw l (
        update-other (s.caps nc.list) nc.index d.index v (λ i. h (same, i))
        ∙ ap (λ k. s.caps k d.index) (sym same))
  | inr l ↦ rw l refl
]

pub cap_at-set_cap_same : (s : Kernel) (nc : Slot) (v : Cap) → cap_at (set_cap s nc v) nc ≡ v
cap_at-set_cap_same s nc v =
    ap (λ f. f nc.index) (update-same s.caps nc.list _) ∙ update-same (s.caps nc.list) nc.index v

-- A capability in use is not the free one that is written.
pub used-ne-free :
    (s : Kernel) (nc d : Slot) → (cap_at s d).perm ≢ 0 → (cap_at s nc).perm ≡ 0 → ¬ (SameSlot d nc)
used-ne-free s nc d h e (l, i) =
    h (ap (λ (v : Cap). v.perm) (ap (λ k. s.caps k d.index) l ∙ ap (s.caps nc.list) i) ∙ e)
