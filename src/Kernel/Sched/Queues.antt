-- ===== src/Kernel/Sched/Queues.antt =====
-- The ready queues as lists: what `add_to_list_tail` and `remove_from_list` do to all of them.
use agatha.Prelude.{
  ◌≡◌, ◌≢◌, sym, ◌∙◌, subst, List, [], ◌∷◌, ◌++◌, arith, update, update-same, update_elim, All,
  All-map, All-append, All-left, All-right,
}
use agatha.Kernel.Links.{Ptr, nil}
use agatha.Kernel.Links.Chain.{NotIn, Distinct, Distinct-middle, Distinct-right}
use agatha.Kernel.Links.Laws.{IsList, append-IsList, append-IsList_other}
use agatha.Kernel.Links.Unlink.{unlink-IsList, unlink-IsList_other}
use agatha.Kernel.Sched.{Sched, add_to_list_tail, remove_from_list}

-- The queue at `l` holds `xs`, and each of them says so.
pub record IsQueue (s : Sched) (l : Ptr) (xs : List Ptr) : Type 0 where
  pub linked : IsList s.links l xs
  pub marked : All (λ x. s.slist x ≡ l) xs

-- What every queue holds.
abbrev pub AllQueues : Sched → (Ptr → List Ptr) → Type 0
AllQueues s q = (l : Ptr) → l ≢ nil → IsQueue s l (q l)

-- A process that is marked for another queue, or for none, is not in this one.
NotIn-of-mark :
    (f : Ptr → Ptr) (p l : Ptr) (xs : List Ptr) → f p ≢ l → All (λ x. f x ≡ l) xs → NotIn p xs
NotIn-of-mark f p l xs h m =
    All-map (λ x. f x ≡ l) (λ x. x ≢ p) xs (λ x e q. h (subst (λ z. f z ≡ l) q e)) m

-- Two queues share no process.
apart_of_marks :
    (f : Ptr → Ptr) (l l' : Ptr) (xs ys : List Ptr)
    → l' ≢ l
    → All (λ x. f x ≡ l) xs
    → All (λ x. f x ≡ l') ys
    → All (λ x. NotIn x ys) xs
apart_of_marks f l l' xs ys h m m' =
    All-map (λ x. f x ≡ l) (λ x. NotIn x ys) xs
      (λ x e. NotIn-of-mark f x l' ys (λ q. h (sym q ∙ e)) m') m

-- A mark of a process outside of the queue may change.
marks-update :
    (f : Ptr → Ptr) (p v l : Ptr) (xs : List Ptr)
    → NotIn p xs
    → All (λ x. f x ≡ l) xs
    → All (λ x. update f p v x ≡ l) xs
marks-update f p v l [] o m = tt
marks-update f p v l (x ∷ xs) o m = (ground arith, marks-update f p v l xs o.1 m.1)

All-drop {ℓ} :
    (P : Ptr → Type ℓ) (xs : List Ptr) (p : Ptr) (ys : List Ptr)
    → All P (xs ++ (p ∷ ys))
    → All P (xs ++ ys)
All-drop P xs p ys h = All-append P xs ys (All-left P xs (p ∷ ys) h) (All-right P xs (p ∷ ys) h).1

NotIn-rest :
    (xs : List Ptr) (p : Ptr) (ys : List Ptr) → Distinct (xs ++ (p ∷ ys)) → NotIn p (xs ++ ys)
NotIn-rest xs p ys d =
    All-append (λ y. y ≢ p) xs ys (Distinct-middle xs p ys d) (Distinct-right xs (p ∷ ys) d).0

module _ (s : Sched) (q : Ptr → List Ptr) (all : AllQueues s q) (l : Ptr) (h : l ≢ nil) where
  -- add_to_list_tail of a process that is not nil and on no queue appends it to its queue, and every
  -- queue stays well linked both ways, with its other processes in order and marked as its own.
  pub add_to_list_tail-AllQueues :
      (p : Ptr)
      → p ≢ nil
      → s.slist p ≡ nil
      → AllQueues (add_to_list_tail s l p) (update q l (q l ++ (p ∷ [])))
  unfolding add_to_list_tail
  add_to_list_tail-AllQueues p hp free l' h' =
      update_elim (IsQueue (add_to_list_tail s l p)) q l (q l ++ (p ∷ [])) l'
        (record {
          linked = append-IsList s.links l p (q l) hp (out l h) (all l h).linked;
          marked =
              All-append (λ x. update s.slist p l x ≡ l) (q l) (p ∷ [])
                (marks-update s.slist p l l (q l) (out l h) (all l h).marked)
                (update-same s.slist p l, tt);
        })
        (λ ne. record {
          linked =
              append-IsList_other s.links l p l' (q l) (q l') ne (out l' h')
                (apart_of_marks s.slist l l' (q l) (q l') ne (all l h).marked (all l' h').marked)
                (all l h).linked (all l' h').linked;
          marked = marks-update s.slist p l l' (q l') (out l' h') (all l' h').marked;
        })
    where
      out : (m : Ptr) → m ≢ nil → NotIn p (q m)
      out m hm = NotIn-of-mark s.slist p m (q m) (λ e. hm (sym e ∙ free)) (all m hm).marked

  -- remove_from_list takes a process out of the queue that it is on, and every queue stays well linked
  -- both ways, with the other processes in order and marked as its own.
  pub remove_from_list-AllQueues :
      (xs : List Ptr) (p : Ptr) (ys : List Ptr)
      → q l ≡ xs ++ (p ∷ ys)
      → AllQueues (remove_from_list s l p) (update q l (xs ++ ys))
  unfolding remove_from_list
  remove_from_list-AllQueues xs p ys e l' h' =
      update_elim (IsQueue (remove_from_list s l p)) q l (xs ++ ys) l'
        (record {
          linked = unlink-IsList s.links l xs p ys here.linked;
          marked =
              marks-update s.slist p nil l (xs ++ ys) (NotIn-rest xs p ys here.linked.distinct)
                (All-drop (λ x. s.slist x ≡ l) xs p ys here.marked);
        })
        (λ ne. record {
          linked =
              unlink-IsList_other s.links l xs p ys l' (q l') ne
                (apart_of_marks s.slist l l' (xs ++ (p ∷ ys)) (q l') ne here.marked
                  (all l' h').marked)
                here.linked (all l' h').linked;
          marked =
              marks-update s.slist p nil l' (q l')
                (NotIn-of-mark s.slist p l' (q l')
                  (λ r. ne (sym r ∙ (All-right (λ x. s.slist x ≡ l) xs (p ∷ ys) here.marked).0))
                  (all l' h').marked)
                (all l' h').marked;
        })
    where
      here : IsQueue s l (xs ++ (p ∷ ys))
      here = subst (IsQueue s l) e (all l h)
