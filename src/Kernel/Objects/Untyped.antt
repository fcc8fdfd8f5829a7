-- ===== src/Kernel/Objects/Untyped.antt =====
-- Splitting an untyped object in two and merging the halves.
use agatha.Prelude.{
  ℕ, ◌+◌, ◌%◌, ◌≤◌, ◌≡◌, ◌≢◌, sym, ap, ◌∙◌, true, false, ◌==◌, ==_iff, arith, update, update-same,
  update-other,
}
use agatha.Kernel.Links.{Ptr, nil}
use agatha.Kernel.State.{
  Cap, Slot, Kernel, ok, cap_at, set_cap, has_write, obj_caplist, obj_untyped, no_cap,
  cap_read_write, ok_code,
}
use agatha.Kernel.Caps.{find_cap, find_both}
use agatha.Kernel.Caps.Slots.{SameSlot, cap_at-set_cap, cap_at-set_cap_same, used-ne-free}
use agatha.Kernel.Objects.{obj_split, obj_merge, set_untyped, untyped_size}
use agatha.Kernel.Objects.Split.{
  half, split_state, WasSplit, obj_split-WasSplit, obj_split-found, perm-of-write,
  find_cap-split_state,
}

-- What merging the halves of a split gives back.
pub record Merged (s : Kernel) (c nc : Slot) (u : Kernel) : Type 0 where
  pub len : u.len (cap_at s c).obj ≡ s.len (cap_at s c).obj
  pub lens : (x : Ptr) → x ≢ (cap_at s c).obj → x ≢ (cap_at s c).obj + half s c → u.len x ≡ s.len x
  pub type : u.type (cap_at s c).obj ≡ obj_untyped
  pub caps : (d : Slot) → ¬ (SameSlot d nc) → cap_at u d ≡ cap_at s d
  pub freed : (cap_at u nc).perm ≡ 0

find_both-ok :
    (s : Kernel) (p : Ptr) (a b : ℕ) (c d : Slot)
    → find_cap s p a ≡ ok c
    → find_cap s p b ≡ ok d
    → find_both s p a b ≡ ok (c, d)
unfolding find_both
find_both-ok s p a b c d e f = rw (e, find_both) (rw (f, find_both))

-- `obj_merge` where all its tests pass.
obj_merge-of :
    (s : Kernel) (a b : ℕ) (cl ch : Slot) (l h : Cap)
    → find_both s s.up a b ≡ ok (cl, ch)
    → cap_at s cl ≡ l
    → cap_at s ch ≡ h
    → l.obj ≢ nil
    → h.obj ≢ nil
    → s.type l.obj ≡ obj_untyped
    → s.type h.obj ≡ obj_untyped
    → s.refs l.obj ≡ 1
    → s.refs h.obj ≡ 1
    → s.len l.obj ≡ s.len h.obj
    → l.obj + s.len l.obj ≡ h.obj
    → obj_merge s a b
      ≡ ok (
        ok_code,
        set_cap (record s { len = update s.len l.obj (s.len l.obj + s.len h.obj) }) ch no_cap,
      )
unfolding obj_merge
obj_merge-of s a b cl ch l h e f g ne ne' ty ty' re re' le at =
    let n : (l.obj == nil) ≡ false = ground arith in
    let n' : (h.obj == nil) ≡ false = ground arith in
    let same = (==_iff (s.len l.obj) (s.len h.obj)).1 le in
    let next = (==_iff (l.obj + s.len l.obj) h.obj).1 at in
    rw (e, obj_merge) (rw (f, g) (rw (n, ty, n', ty', re, re', same, next)))

merge_split_state :
    (s : Kernel) (cid nid : ℕ) (c nc : Slot) {r : ℕ} {t : Kernel}
    → WasSplit s c nc r t
    → s.len (cap_at s c).obj % 2 ≡ 0
    → find_cap (split_state s c nc) s.up cid ≡ ok c
    → find_cap (split_state s c nc) s.up nid ≡ ok nc
    → (u : Kernel) × (obj_merge (split_state s c nc) cid nid ≡ ok (ok_code, u)) × Merged s c nc u
merge_split_state s cid nid c nc sp even found found' = (
  set_cap (record w { len = update w.len o (w.len o + w.len (o + k)) }) nc no_cap,
  obj_merge-of w cid nid c nc (cap_at s c) (record { perm = cap_read_write; obj = o + k })
      (find_both-ok w s.up cid nid c nc found found')
      (cap_at-set_cap s nc c _ (used-ne-free s nc c (perm-of-write _ sp.writable) sp.free))
      (cap_at-set_cap_same (set_untyped (set_untyped s (o + k) k) o k) nc _) sp.ne_nil
      (λ e. apart (omega arith)) (update-same (update s.type (o + k) obj_untyped) o obj_untyped)
      (update-other (update s.type (o + k) obj_untyped) o (o + k) obj_untyped apart
        ∙ update-same s.type (o + k) obj_untyped)
      (update-same (update s.refs (o + k) 1) o 1)
      (update-other (update s.refs (o + k) 1) o (o + k) 1 apart ∙ update-same s.refs (o + k) 1)
      (low ∙ sym high) (ap (λ x. o + x) low),
  record {
    len = update-same w.len o (w.len o + w.len (o + k)) ∙ rw (low, high) (omega arith);
    lens = λ x n m.
        update-other w.len o x (w.len o + w.len (o + k)) n
        ∙ update-other (update s.len (o + k) k) o x k n
        ∙ update-other s.len (o + k) x k m;
    type = update-same (update s.type (o + k) obj_untyped) o obj_untyped;
    caps = λ d n.
        cap_at-set_cap (record w { len = update w.len o (w.len o + w.len (o + k)) }) nc d no_cap n
        ∙ cap_at-set_cap (set_untyped (set_untyped s (o + k) k) o k) nc d _ n;
    freed =
        ap (λ (v : Cap). v.perm)
          (cap_at-set_cap_same (record w { len = update w.len o (w.len o + w.len (o + k)) }) nc
            no_cap);
  },
)
  where
    w : Kernel
    w = split_state s c nc

    o : Ptr
    o = (cap_at s c).obj

    k : ℕ
    k = half s c

    apart : o + k ≢ o
    apart = omega (arith, sp.fits)

    low : w.len o ≡ k
    low = update-same (update s.len (o + k) k) o k

    high : w.len (o + k) ≡ k
    high = update-other (update s.len (o + k) k) o (o + k) k apart ∙ update-same s.len (o + k) k

-- After a successful sys_obj_split of an object of even length, with no capability list in its middle,
-- sys_obj_merge of the same two capabilities succeeds and gives back the length, the type, and the
-- free capability, and leaves the others.
pub obj_merge-obj_split :
    (s t : Kernel) (cid nid r : ℕ) (c nc : Slot)
    → find_cap s s.up cid ≡ ok c
    → find_cap s s.up nid ≡ ok nc
    → obj_split s cid nid ≡ ok (r, t)
    → s.len (cap_at s c).obj % 2 ≡ 0
    → s.type ((cap_at s c).obj + half s c) ≢ obj_caplist
    → (u : Kernel) × (obj_merge t cid nid ≡ ok (ok_code, u)) × Merged s c nc u
obj_merge-obj_split s t cid nid r c nc found found' h even apart =
    let sp = obj_split-WasSplit s cid nid r t h c nc found found' in
    let keeps = λ (x : ℕ) (d : Slot) (e : find_cap s s.up x ≡ ok d).
      find_cap-split_state s c nc x d sp.is_untyped sp.free apart e in
    rw sp.state (merge_split_state s cid nid c nc sp even (keeps cid c found) (keeps nid nc found'))

-- After a split the two halves, which lie side by side in the old object.
pub record Halves (s : Kernel) (c nc : Slot) (t : Kernel) : Type 0 where
  pub low : t.len (cap_at s c).obj ≡ half s c
  pub high : t.len ((cap_at s c).obj + half s c) ≡ half s c
  pub untyped :
      (t.type (cap_at s c).obj ≡ obj_untyped) × (t.type ((cap_at s c).obj + half s c) ≡ obj_untyped)
  pub big : untyped_size ≤ half s c
  pub inside : half s c + half s c ≤ s.len (cap_at s c).obj
  pub given : cap_at t nc ≡ record { perm = cap_read_write; obj = (cap_at s c).obj + half s c }
  pub others :
      (x : Ptr)
      → x ≢ (cap_at s c).obj
      → x ≢ (cap_at s c).obj + half s c
      → (t.type x ≡ s.type x) × (t.len x ≡ s.len x) × (t.refs x ≡ s.refs x)
  pub caps : (d : Slot) → ¬ (SameSlot d nc) → cap_at t d ≡ cap_at s d

Halves-split_state :
    (s : Kernel) (c nc : Slot) → untyped_size ≤ half s c → Halves s c nc (split_state s c nc)
Halves-split_state s c nc fits =
    let o = (cap_at s c).obj in
    let k = half s c in
    let apart : o + k ≢ o = omega arith in
    record {
      low = update-same (update s.len (o + k) k) o k;
      high = update-other (update s.len (o + k) k) o (o + k) k apart ∙ update-same s.len (o + k) k;
      untyped = (
        update-same (update s.type (o + k) obj_untyped) o obj_untyped,
        update-other (update s.type (o + k) obj_untyped) o (o + k) obj_untyped apart
            ∙ update-same s.type (o + k) obj_untyped,
      );
      big = fits;
      inside = omega arith;
      given = cap_at-set_cap_same (set_untyped (set_untyped s (o + k) k) o k) nc _;
      others = λ x n m. (
        update-other (update s.type (o + k) 0) o x 0 n ∙ update-other s.type (o + k) x 0 m,
        update-other (update s.len (o + k) k) o x k n ∙ update-other s.len (o + k) x k m,
        update-other (update s.refs (o + k) 1) o x 1 n ∙ update-other s.refs (o + k) x 1 m,
      );
      caps = λ d n. cap_at-set_cap (set_untyped (set_untyped s (o + k) k) o k) nc d _ n;
    }

-- A successful sys_obj_split was of an untyped object that the caller may write and into a free
-- capability. It leaves two untyped halves of equal size, large enough for a header, inside of the old
-- object, gives the upper one to the free capability, and changes the type, length and reference count
-- of no other object, and no other capability.
pub obj_split-Halves :
    (s t : Kernel) (cid nid r : ℕ)
    → obj_split s cid nid ≡ ok (r, t)
    → (c : Slot) × (nc : Slot) × (find_cap s s.up cid ≡ ok c)
      × (find_cap s s.up nid ≡ ok nc)
      × (has_write (cap_at s c).perm ≡ true)
      × (s.type (cap_at s c).obj ≡ obj_untyped)
      × ((cap_at s nc).perm ≡ 0)
      × (r ≡ ok_code)
      × Halves s c nc t
obj_split-Halves s t cid nid r h =
    let (c, nc, found, found') = obj_split-found s cid nid r t h in
    let sp = obj_split-WasSplit s cid nid r t h c nc found found' in
    (
      c,
      nc,
      found,
      found',
      sp.writable,
      sp.is_untyped,
      sp.free,
      sp.code,
      rw sp.state (Halves-split_state s c nc sp.fits),
    )
