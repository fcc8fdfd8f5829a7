-- ===== src/Kernel/Caps/Find.antt =====
-- What `proc_find_cap` finds, against the capability tree: a process has a root list, and each readable
-- capability to a list in it leads to the capabilities of that list.
use agatha.Prelude.{ℕ, ◌/◌, ◌%◌, ◌^◌, ◌<◌, ◌≡◌, ◌≢◌, ◌∙◌, subst, ◌↔◌, ◌⊎◌, true, arith, inl, inr}
use agatha.Kernel.Links.{Ptr, nil}
use agatha.Kernel.State.{Slot, Kernel, ok, fault, cap_at, has_read, clist_caps, obj_caplist}
use agatha.Kernel.Caps.{find_sub, find_cap}

abbrev pub root_slot : Kernel → Ptr → ℕ → Slot
root_slot s p base = record { list = (s.proc p).cap_root; index = base }

-- The capability at `c` is readable and leads to a list.
pub record IsReadable (s : Kernel) (c : Slot) : Type 0 where
  pub readable : has_read (cap_at s c).perm ≡ true
  pub ne_nil : (cap_at s c).obj ≢ nil
  pub is_list : s.type (cap_at s c).obj ≡ obj_caplist

-- The ids of a process and the slots that they name.
pub data Names (s : Kernel) (p : Ptr) (cid : ℕ) : Slot → Type 0 where
  root : cid % 2 ^ 12 ≡ 0 → Names s p cid (root_slot s p (cid / 2 ^ 12))
  sub :
      cid % 2 ^ 12 ≢ 0
      → cid % 2 ^ 12 < clist_caps
      → IsReadable s (root_slot s p (cid / 2 ^ 12))
      → Names s p cid
          (record { list = (cap_at s (root_slot s p (cid / 2 ^ 12))).obj; index = cid % 2 ^ 12 })

-- A process with a root list, and an id that is not negative, of a base in range.
pub record InRange (s : Kernel) (p : Ptr) (cid : ℕ) : Type 0 where
  pub has_root : (s.proc p).cap_root ≢ nil
  pub positive : cid < 2 ^ 31
  pub base : cid / 2 ^ 12 < clist_caps

find_sub-ok :
    (s : Kernel) (c d : Slot) (n : ℕ)
    → find_sub s c n ≡ ok d
    → IsReadable s c × (n < clist_caps) × (record { list = (cap_at s c).obj; index = n } ≡ d)
unfolding find_sub
find_sub-ok s c d n h = (ground arith, ground arith, ground arith)

find_sub-of :
    (s : Kernel) (c : Slot) (n : ℕ)
    → IsReadable s c
    → n < clist_caps
    → find_sub s c n ≡ ok (record { list = (cap_at s c).obj; index = n })
unfolding find_sub
find_sub-of s c n r h = ground arith

module _ (s : Kernel) (p : Ptr) (cid : ℕ) where
  pub find_cap-root :
      InRange s p cid → cid % 2 ^ 12 ≡ 0 → find_cap s p cid ≡ ok (root_slot s p (cid / 2 ^ 12))
  unfolding find_cap
  find_cap-root r e = ground (arith, r.has_root, r.positive, r.base)

  pub find_cap-sub :
      InRange s p cid
      → cid % 2 ^ 12 ≢ 0
      → find_cap s p cid ≡ find_sub s (root_slot s p (cid / 2 ^ 12)) (cid % 2 ^ 12)
  unfolding find_cap
  find_cap-sub r e = ground (arith, r.has_root, r.positive, r.base)

  find_cap-ok :
      (d : Slot)
      → find_cap s p cid ≡ ok d
      → InRange s p cid
        × (((cid % 2 ^ 12 ≡ 0) × (root_slot s p (cid / 2 ^ 12) ≡ d))
            ⊎ ((cid % 2 ^ 12 ≢ 0)
                × (find_sub s (root_slot s p (cid / 2 ^ 12)) (cid % 2 ^ 12) ≡ ok d)))
  unfolding find_cap
  find_cap-ok d h = (ground arith, ground arith)

  -- proc_find_cap returns a slot exactly if the process has a root list, the id is not negative and
  -- has a base below CLIST_CAPS, and the slot is the one that the id names in the tree: an entry of
  -- the root list, or an entry below CLIST_CAPS of a list that a readable capability of the root list
  -- leads to.
  pub find_cap_iff : (d : Slot) → (find_cap s p cid ≡ ok d) ↔ (InRange s p cid × Names s p cid d)
  find_cap_iff d = (there, back)
    where
      there : find_cap s p cid ≡ ok d → InRange s p cid × Names s p cid d
      there h = elim (find_cap-ok d h).1 [
        | inl (e, eq) ↦ ((find_cap-ok d h).0, subst (Names s p cid) eq (root e))
        | inr (e, sub_ok) ↦
            let (r, lt, eq) =
              find_sub-ok s (root_slot s p (cid / 2 ^ 12)) d (cid % 2 ^ 12) sub_ok in
            ((find_cap-ok d h).0, subst (Names s p cid) eq (sub e lt r))
      ]

      names : (d : Slot) → InRange s p cid → Names s p cid d → find_cap s p cid ≡ ok d
      names d r (root e) = find_cap-root r e
      names d r (sub e lt is) =
          find_cap-sub r e ∙ find_sub-of s (root_slot s p (cid / 2 ^ 12)) (cid % 2 ^ 12) is lt

      back : InRange s p cid × Names s p cid d → find_cap s p cid ≡ ok d
      back h = names d h.0 h.1

  -- Every slot that is found lies inside of its list.
  pub find_cap-lt : (d : Slot) → find_cap s p cid ≡ ok d → d.index < clist_caps
  find_cap-lt d h = Names-lt d ((find_cap_iff d).0 h).0 ((find_cap_iff d).0 h).1
    where
      Names-lt : (d : Slot) → InRange s p cid → Names s p cid d → d.index < clist_caps
      Names-lt d r (root e) = r.base
      Names-lt d r (sub e lt is) = lt

  -- For a process with a root list, and an id that is not negative, has a base in range that is a
  -- readable capability to a list, and a sub index of CLIST_CAPS itself, proc_find_cap passes its
  -- bounds test and reads one past the end of the array.
  find_cap-past_end :
      InRange s p cid
      → IsReadable s (root_slot s p (cid / 2 ^ 12))
      → cid % 2 ^ 12 ≡ clist_caps
      → find_cap s p cid ≡ fault
  unfolding find_sub
  find_cap-past_end r is e =
      find_cap-sub r (omega arith) ∙ past s (root_slot s p (cid / 2 ^ 12)) (cid % 2 ^ 12) is e
    where
      past :
          (s : Kernel) (c : Slot) (n : ℕ) → IsReadable s c → n ≡ clist_caps → find_sub s c n ≡ fault
      past s c n is e = ground arith
