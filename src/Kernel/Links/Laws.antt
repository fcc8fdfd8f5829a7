-- ===== src/Kernel/Links/Laws.antt =====
-- `append`, `enqueue` and `unlink` keep lists well linked, and are what they are on lists.
use agatha.Prelude.{
  ℕ, ◌≡◌, ◌≢◌, sym, ◌∙◌, List, [], ◌∷◌, ◌++◌, arith, update, Bool-cases, ◌==◌, inl, inr, false, All,
  All-append, update-same, update-other, update_comm,
}
use agatha.Kernel.Links.{Ptr, nil, Links, append, enqueue}
use agatha.Kernel.Links.Chain.{
  first, last, Chain, NotIn, Distinct, last-append, last-NotIn, Chain-next, Chain-prev,
  Chain-append, last-ne-nil, Chain-set_end,
}

-- The list at `l` holds `xs`, linked both ways.
pub record IsList (k : Links) (l : Ptr) (xs : List Ptr) : Type 0 where
  pub head : k.head l ≡ first xs nil
  pub tail : k.tail l ≡ last nil xs
  pub chain : Chain k.next k.prev nil xs nil
  pub distinct : Distinct xs

Distinct-snoc : (xs : List ℕ) (p : ℕ) → Distinct xs → NotIn p xs → Distinct (xs ++ (p ∷ []))
Distinct-snoc [] p d o = (tt, tt)
Distinct-snoc (x ∷ xs) p d o =
    (All-append (λ y. y ≢ x) xs (p ∷ []) d.0 (ground arith, tt), Distinct-snoc xs p d.1 o.1)

pub All-last : (P : ℕ → Type 0) (x : ℕ) (xs : List ℕ) → All P (x ∷ xs) → P (last x xs)
All-last P x [] h = h.0
All-last P x (y ∷ ys) h = All-last P y ys h.1

-- `append` puts a process that is on no list at the end.
pub append-IsList :
    (k : Links) (l p : Ptr) (xs : List Ptr)
    → p ≢ nil
    → NotIn p xs
    → IsList k l xs
    → IsList (append k l p) l (xs ++ (p ∷ []))
unfolding append
append-IsList k l p [] h o is = rw is.tail (record {
  head = update-same k.head l p;
  tail = update-same k.tail l p;
  chain = (h, ground arith, ground arith, tt);
  distinct = (tt, tt);
})
append-IsList k l p (x ∷ xs) h o is =
    let t : last x xs ≢ nil = last-ne-nil k.next k.prev x xs nil is.chain.0 is.chain.3 in
    let full : (last x xs == nil) ≡ false = ground arith in
    let apart : last x xs ≢ p = last-NotIn p x xs o.0 o.1 in
    let nx = update k.next p nil in
    let pv = update k.prev p (last x xs) in
    rw (is.tail, full)
      (record {
        head = is.head;
        tail = update-same k.tail l p ∙ sym (last-append x xs (p ∷ []));
        chain =
            Chain-append (update nx (last x xs) p) pv nil (x ∷ xs) (p ∷ []) nil
              (Chain-set_end nx pv nil x xs nil p is.distinct (
                Chain-next k.next pv p nil nil (x ∷ xs) nil o
                  (Chain-prev k.next k.prev p (last x xs) nil (x ∷ xs) nil o is.chain)))
              (
                h,
                update-same k.prev p (last x xs),
                update-other nx (last x xs) p p (λ e. apart (sym e)) ∙ update-same k.next p nil,
                tt,
              );
        distinct = Distinct-snoc (x ∷ xs) p is.distinct o;
      })

-- Another list, which shares no process with this one, is left alone.
pub append-IsList_other :
    (k : Links) (l p l' : Ptr) (xs ys : List Ptr)
    → l' ≢ l
    → NotIn p ys
    → All (λ x. NotIn x ys) xs
    → IsList k l xs
    → IsList k l' ys
    → IsList (append k l p) l' ys
unfolding append
append-IsList_other k l p l' [] ys h o apart is is' = rw is.tail (record {
  head = update-other k.head l l' p h ∙ is'.head;
  tail = update-other k.tail l l' p h ∙ is'.tail;
  chain =
      Chain-next k.next (update k.prev p nil) p nil nil ys nil o
        (Chain-prev k.next k.prev p nil nil ys nil o is'.chain);
  distinct = is'.distinct;
})
append-IsList_other k l p l' (x ∷ xs) ys h o apart is is' =
    let t : last x xs ≢ nil = last-ne-nil k.next k.prev x xs nil is.chain.0 is.chain.3 in
    let full : (last x xs == nil) ≡ false = ground arith in
    let out : NotIn (last x xs) ys = All-last (λ x. NotIn x ys) x xs apart in
    let pv = update k.prev p (last x xs) in
    rw (is.tail, full)
      (record {
        head = is'.head;
        tail = update-other k.tail l l' p h ∙ is'.tail;
        chain = Chain-next (update k.next p nil) pv (last x xs) p nil ys nil out (
            Chain-next k.next pv p nil nil ys nil o
              (Chain-prev k.next k.prev p (last x xs) nil ys nil o is'.chain));
        distinct = is'.distinct;
      })

-- `mesg` writes the same links in another order.
pub enqueue-eq-append : (k : Links) (l p : Ptr) → k.tail l ≢ p → enqueue k l p ≡ append k l p
unfolding enqueue append
enqueue-eq-append k l p h = elim (Bool-cases (k.tail l == nil)) [
  | inl e ↦ rw e
  | inr e ↦ rw (e, update_comm k.next (k.tail l) p p nil h)
]
