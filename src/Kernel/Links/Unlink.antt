-- ===== src/Kernel/Links/Unlink.antt =====
-- `unlink` takes one process out of its list and leaves every other list alone.
use agatha.Prelude.{
  ℕ, ◌≡◌, ◌≢◌, sym, ap, ◌∙◌, List, [], ◌∷◌, ◌++◌, arith, update, ◌==◌, true, false, All, All-left,
  All-right, update-same, update-other,
}
use mathlib.Core.List.{append-nil}
use agatha.Kernel.Links.{Ptr, nil, Links, unlink, bypass_next, bypass_prev}
use agatha.Kernel.Links.Laws.{IsList, All-last}
use agatha.Kernel.Links.Chain.{
  first, last, NotIn, last-append, last-NotIn, Chain-next, Chain-prev, Chain-append, Chain-left,
  Chain-right, last-ne-nil, Chain-set_end, Chain-set_start, Distinct-left, Distinct-right,
  Distinct-middle, Distinct-drop, Distinct-apart,
}

-- The neighbours of an element, read from its links.
neighbours :
    (k : Links) (l : Ptr) (xs : List Ptr) (p : Ptr) (ys : List Ptr)
    → IsList k l (xs ++ (p ∷ ys))
    → (p ≢ nil) × (k.prev p ≡ last nil xs) × (k.next p ≡ first ys nil)
neighbours k l xs p ys is =
    let c = Chain-right k.next k.prev nil xs (p ∷ ys) nil is.chain in (c.0, c.1, c.2)

nonzero : (p : ℕ) → p ≢ 0 → (p == 0) ≡ false
nonzero p h = ground arith

-- The two assignments of `unlink`, by what they find.
bypass_next-nil :
    (k : Links) (l p : Ptr)
    → k.prev p ≡ nil
    → bypass_next k l p ≡ record k { head = update k.head l (k.next p) }
unfolding bypass_next
bypass_next-nil k l p e = rw (nonzero e)
  where
    nonzero : k.prev p ≡ nil → (k.prev p == nil) ≡ true
    nonzero e = ground arith

bypass_next-ne :
    (k : Links) (l p : Ptr)
    → k.prev p ≢ nil
    → bypass_next k l p ≡ record k { next = update k.next (k.prev p) (k.next p) }
unfolding bypass_next
bypass_next-ne k l p h = rw (nonzero (k.prev p) h)

bypass_prev-nil :
    (k : Links) (l p : Ptr)
    → k.next p ≡ nil
    → bypass_prev k l p ≡ record k { tail = update k.tail l (k.prev p) }
unfolding bypass_prev
bypass_prev-nil k l p e = rw (is_nil e)
  where
    is_nil : k.next p ≡ nil → (k.next p == nil) ≡ true
    is_nil e = ground arith

bypass_prev-ne :
    (k : Links) (l p : Ptr)
    → k.next p ≢ nil
    → bypass_prev k l p ≡ record k { prev = update k.prev (k.next p) (k.prev p) }
unfolding bypass_prev
bypass_prev-ne k l p h = rw (nonzero (k.next p) h)

-- `unlink` by the neighbours that there are.
unlink-first :
    (k : Links) (l p : Ptr)
    → k.prev p ≡ nil
    → k.next p ≢ nil
    → unlink k l p
      ≡ record k { head = update k.head l (k.next p); prev = update k.prev (k.next p) (k.prev p) }
unfolding unlink
unlink-first k l p e h =
    ap (λ j. bypass_prev j l p) (bypass_next-nil k l p e)
    ∙ bypass_prev-ne (record k { head = update k.head l (k.next p) }) l p h

unlink-only :
    (k : Links) (l p : Ptr)
    → k.prev p ≡ nil
    → k.next p ≡ nil
    → unlink k l p
      ≡ record k { head = update k.head l (k.next p); tail = update k.tail l (k.prev p) }
unfolding unlink
unlink-only k l p e h =
    ap (λ j. bypass_prev j l p) (bypass_next-nil k l p e)
    ∙ bypass_prev-nil (record k { head = update k.head l (k.next p) }) l p h

module _ (k : Links) (l p : Ptr) (h : k.prev p ≢ nil) (apart : p ≢ k.prev p) where
  same : update k.next (k.prev p) (k.next p) p ≡ k.next p
  same = update-other k.next (k.prev p) p (k.next p) apart

  unlink-last :
      k.next p ≡ nil
      → unlink k l p
        ≡ record k { tail = update k.tail l (k.prev p); next = update k.next (k.prev p) (k.next p) }
  unfolding unlink
  unlink-last e =
      ap (λ j. bypass_prev j l p) (bypass_next-ne k l p h)
      ∙ bypass_prev-nil (record k { next = update k.next (k.prev p) (k.next p) }) l p (same ∙ e)

  unlink-inner :
      k.next p ≢ nil
      → unlink k l p ≡ record k {
        next = update k.next (k.prev p) (k.next p);
        prev = update k.prev (k.next p) (k.prev p);
      }
  unfolding unlink
  unlink-inner g =
      ap (λ j. bypass_prev j l p) (bypass_next-ne k l p h)
      ∙ bypass_prev-ne (record k { next = update k.next (k.prev p) (k.next p) }) l p
          (λ e. g (sym same ∙ e))
      ∙ ap
          (λ v. record k {
            next = update k.next (k.prev p) (k.next p);
            prev = update k.prev v (k.prev p);
          })
          same

-- `unlink` takes `p` out of its list; the others keep their order.
pub unlink-IsList :
    (k : Links) (l : Ptr) (xs : List Ptr) (p : Ptr) (ys : List Ptr)
    → IsList k l (xs ++ (p ∷ ys))
    → IsList (unlink k l p) l (xs ++ ys)
unlink-IsList k l [] p [] is =
    let (h, e, f) = neighbours k l [] p [] is in
    rw (unlink-only k l p e f) (record {
      head = update-same k.head l (k.next p) ∙ f;
      tail = update-same k.tail l (k.prev p) ∙ e;
      chain = tt;
      distinct = tt;
    })
unlink-IsList k l [] p (y ∷ ys) is =
    let (h, e, f) = neighbours k l [] p (y ∷ ys) is in
    let c = is.chain.3 in
    let ne : k.next p ≢ nil = λ q. c.0 (sym f ∙ q) in
    rw (unlink-first k l p e ne, f, e)
      (record {
        head = update-same k.head l y;
        tail = is.tail;
        chain = Chain-set_start k.next k.prev p nil y ys nil is.distinct.1 c;
        distinct = is.distinct.1;
      })
unlink-IsList k l (x ∷ xs) p [] is =
    let (h, e, f) = neighbours k l (x ∷ xs) p [] is in
    let c = Chain-left k.next k.prev nil (x ∷ xs) (p ∷ []) nil is.chain in
    let d = Distinct-left (x ∷ xs) (p ∷ []) is.distinct in
    let out = Distinct-middle (x ∷ xs) p [] is.distinct in
    let t = last-ne-nil k.next k.prev x xs p c.0 c.3 in
    let apart = last-NotIn p x xs out.0 out.1 in
    rw (unlink-last k l p (λ q. t (sym e ∙ q)) (λ q. apart (sym e ∙ sym q)) f, e, f, append-nil)
      (record {
        head = is.head;
        tail = update-same k.tail l (last x xs);
        chain = Chain-set_end k.next k.prev nil x xs p nil d c;
        distinct = d;
      })
unlink-IsList k l (x ∷ xs) p (y ∷ ys) is =
    let (h, e, f) = neighbours k l (x ∷ xs) p (y ∷ ys) is in
    let c = Chain-left k.next k.prev nil (x ∷ xs) (p ∷ y ∷ ys) nil is.chain in
    let r = Chain-right k.next k.prev nil (x ∷ xs) (p ∷ y ∷ ys) nil is.chain in
    let d = Distinct-left (x ∷ xs) (p ∷ y ∷ ys) is.distinct in
    let out = Distinct-middle (x ∷ xs) p (y ∷ ys) is.distinct in
    let t = last-ne-nil k.next k.prev x xs p c.0 c.3 in
    let apart = last-NotIn p x xs out.0 out.1 in
    let d' = Distinct-drop (x ∷ xs) p (y ∷ ys) is.distinct in
    let y_out = Distinct-middle (x ∷ xs) y ys d' in
    let z_out = All-last (λ a. NotIn a (y ∷ ys)) x xs (Distinct-apart (x ∷ xs) (y ∷ ys) d') in
    let nx = update k.next (last x xs) y in
    let front = Chain-set_end k.next k.prev nil x xs p y d c in
    let back = Chain-next k.next k.prev (last x xs) y p (y ∷ ys) nil z_out r.3 in
    rw
      (
        unlink-inner k l p (λ q. t (sym e ∙ q)) (λ q. apart (sym e ∙ sym q))
            (λ q. r.3.0 (sym f ∙ q)),
        e,
        f,
      )
      (record {
        head = is.head;
        tail = is.tail ∙ last-append x xs (p ∷ y ∷ ys) ∙ sym (last-append x xs (y ∷ ys));
        chain =
            Chain-append nx (update k.prev y (last x xs)) nil (x ∷ xs) (y ∷ ys) nil
              (Chain-prev nx k.prev y (last x xs) nil (x ∷ xs) y y_out front)
              (Chain-set_start nx k.prev p (last x xs) y ys nil
                (Distinct-right (x ∷ xs) (y ∷ ys) d') back);
        distinct = d';
      })

-- Every list at another address, which shares no process with this one, is left alone.
pub unlink-IsList_other :
    (k : Links) (l : Ptr) (xs : List Ptr) (p : Ptr) (ys : List Ptr) (l' : Ptr) (zs : List Ptr)
    → l' ≢ l
    → All (λ x. NotIn x zs) (xs ++ (p ∷ ys))
    → IsList k l (xs ++ (p ∷ ys))
    → IsList k l' zs
    → IsList (unlink k l p) l' zs
unlink-IsList_other k l [] p [] l' zs ne o is is' =
    let (h, e, f) = neighbours k l [] p [] is in
    rw (unlink-only k l p e f) (record {
      head = update-other k.head l l' _ ne ∙ is'.head;
      tail = update-other k.tail l l' _ ne ∙ is'.tail;
      chain = is'.chain;
      distinct = is'.distinct;
    })
unlink-IsList_other k l [] p (y ∷ ys) l' zs ne o is is' =
    let (h, e, f) = neighbours k l [] p (y ∷ ys) is in
    rw (unlink-first k l p e (λ q. is.chain.3.0 (sym f ∙ q)), f)
      (record {
        head = update-other k.head l l' _ ne ∙ is'.head;
        tail = is'.tail;
        chain = Chain-prev k.next k.prev y (k.prev p) nil zs nil o.1.0 is'.chain;
        distinct = is'.distinct;
      })
unlink-IsList_other k l (x ∷ xs) p [] l' zs ne o is is' =
    let (h, e, f) = neighbours k l (x ∷ xs) p [] is in
    let c = Chain-left k.next k.prev nil (x ∷ xs) (p ∷ []) nil is.chain in
    let out = Distinct-middle (x ∷ xs) p [] is.distinct in
    let t = last-ne-nil k.next k.prev x xs p c.0 c.3 in
    let apart = last-NotIn p x xs out.0 out.1 in
    let gone = All-last (λ x. NotIn x zs) x xs (All-left (λ x. NotIn x zs) (x ∷ xs) (p ∷ []) o) in
    rw (unlink-last k l p (λ q. t (sym e ∙ q)) (λ q. apart (sym e ∙ sym q)) f, e)
      (record {
        head = is'.head;
        tail = update-other k.tail l l' (last x xs) ne ∙ is'.tail;
        chain = Chain-next k.next k.prev (last x xs) (k.next p) nil zs nil gone is'.chain;
        distinct = is'.distinct;
      })
unlink-IsList_other k l (x ∷ xs) p (y ∷ ys) l' zs ne o is is' =
    let (h, e, f) = neighbours k l (x ∷ xs) p (y ∷ ys) is in
    let c = Chain-left k.next k.prev nil (x ∷ xs) (p ∷ y ∷ ys) nil is.chain in
    let r = Chain-right k.next k.prev nil (x ∷ xs) (p ∷ y ∷ ys) nil is.chain in
    let out = Distinct-middle (x ∷ xs) p (y ∷ ys) is.distinct in
    let t = last-ne-nil k.next k.prev x xs p c.0 c.3 in
    let apart = last-NotIn p x xs out.0 out.1 in
    let gone =
      All-last (λ x. NotIn x zs) x xs (All-left (λ x. NotIn x zs) (x ∷ xs) (p ∷ y ∷ ys) o) in
    let gone' = (All-right (λ x. NotIn x zs) (x ∷ xs) (p ∷ y ∷ ys) o).1.0 in
    rw
      (
        unlink-inner k l p (λ q. t (sym e ∙ q)) (λ q. apart (sym e ∙ sym q))
            (λ q. r.3.0 (sym f ∙ q)),
        e,
        f,
      )
      (record {
        head = is'.head;
        tail = is'.tail;
        chain =
            Chain-next k.next (update k.prev y (last x xs)) (last x xs) y nil zs nil gone
              (Chain-prev k.next k.prev y (last x xs) nil zs nil gone' is'.chain);
        distinct = is'.distinct;
      })
