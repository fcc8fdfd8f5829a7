-- ===== src/Kernel/Links.antt =====
-- The doubly linked lists of processes: `struct proc_list` of include/sysobj.h with the link fields
-- of the processes on it (`snext`, `sprev` on a ready queue, `wnext`, `wprev` on an endpoint).
-- A field of all processes is a map from addresses, and 0 is nil.
pub mod Chain
pub mod Laws
pub mod Unlink
use agatha.Prelude.{ℕ, ◌==◌, if◌then◌else◌, update}

-- `obj_proc_t *` and the other object pointers.
abbrev pub Ptr : Type 0
Ptr = ℕ

abbrev pub nil : Ptr
nil = 0

-- `head` and `tail` are those of the list at an address.
pub record Links : Type 0 where
  pub head : Ptr → Ptr
  pub tail : Ptr → Ptr
  pub next : Ptr → Ptr
  pub prev : Ptr → Ptr

-- `if (l->tail == nil) l->head = p; else l->tail->snext = p;`
link_tail : Links → Ptr → Ptr → Links
link_tail k l p =
    if k.tail l == nil
    then record k { head = update k.head l p }
    else record k { next = update k.next (k.tail l) p }

-- The links of `add_to_list_tail`, in the order of its assignments.
unfoldable pub append : Links → Ptr → Ptr → Links
unfolding link_tail
append k l p =
    let k' =
      link_tail (record k { next = update k.next p nil; prev = update k.prev p (k.tail l) }) l p in
    record k' { tail = update k'.tail l p }

-- The same as `mesg` writes it out: the new element's `next` is cleared last.
unfoldable pub enqueue : Links → Ptr → Ptr → Links
unfolding link_tail
enqueue k l p =
    let k' = link_tail (record k { prev = update k.prev p (k.tail l) }) l p in
    record k' { next = update k'.next p nil; tail = update k'.tail l p }

-- `if (p->sprev != nil) p->sprev->snext = p->snext; else l->head = p->snext;`
bypass_next : Links → Ptr → Ptr → Links
bypass_next k l p =
    if k.prev p == nil
    then record k { head = update k.head l (k.next p) }
    else record k { next = update k.next (k.prev p) (k.next p) }

-- `if (p->snext != nil) p->snext->sprev = p->sprev; else l->tail = p->sprev;`
bypass_prev : Links → Ptr → Ptr → Links
bypass_prev k l p =
    if k.next p == nil
    then record k { tail = update k.tail l (k.prev p) }
    else record k { prev = update k.prev (k.next p) (k.prev p) }

-- The links of `remove_from_list`, and of the removal that `reply` writes out.
unfoldable pub unlink : Links → Ptr → Ptr → Links
unfolding bypass_next bypass_prev
unlink k l p = bypass_prev (bypass_next k l p) l p
