-- ===== src/Pool.antt =====
-- lib/pool/pool.c: fixed-size objects from frames of memory. An object is named by the address of its
-- `struct pool_obj`; the pointer that the user has is 8 bytes above it. Addresses are 32 bits, and 0
-- is nil.
pub mod Laws
pub mod Tests
use agatha.Prelude.{
  ℕ, zero, suc, ◌+◌, ◌-◌, ◌*◌, ◌/◌, ◌%◌, Bool, true, false, ltb, ◌==◌, if◌then◌else◌, update,
  Option, none, some, List, [], ◌∷◌,
}

-- `sizeof(struct pool_obj)` and `sizeof(struct pool_frame)`
abbrev pub obj_head : ℕ
obj_head = 8

abbrev pub frame_head : ℕ
frame_head = 12

-- `struct pool`, with the fields of the objects and the list of its frames.
pub record Pool : Type 0 where
  pub obj_size : ℕ
  pub objs : ℕ
  pub n_free : ℕ
  pub frames : List ℕ
  pub next : ℕ → ℕ
  pub in_use : ℕ → Bool

-- `pool_init`; `next` and `in_use` are what the memory holds.
unfoldable pub pool_init : (obj_size : ℕ) → (ℕ → ℕ) → (ℕ → Bool) → Pool
pool_init obj_size next in_use = record {
  obj_size = obj_head + (obj_size + 3) / 4 * 4;
  objs = 0;
  n_free = 0;
  frames = [];
  next = next;
  in_use = in_use;
}

-- `o->in_use = false; o->next = p->objs; p->objs = o;`
unfoldable pub push : Pool → ℕ → Pool
push p o = record p { in_use = update p.in_use o false; next = update p.next o p.objs; objs = o }

-- The loop of `pool_load` over the objects from `o` on.
unfoldable pub load : (n : ℕ) → Pool → ℕ → Pool
load zero p o = p
load (suc n) p o = load n (push p o) (o + p.obj_size)

-- `pool_load`; `none` is ERR.
unfoldable pub pool_load : Pool → (a len : ℕ) → Option Pool
pool_load p a len =
    if ltb len (p.obj_size + frame_head)
    then none
    else (let n = (len - frame_head) / p.obj_size in
        let p' = load n p (a + frame_head) in
        some (record p' { n_free = p'.n_free + n; frames = a ∷ p'.frames }))

-- `pool_alloc`: the pointer to the body, or nil.
unfoldable pub pool_alloc : Pool → Pool × ℕ
pool_alloc p = if p.objs == 0 then (p, 0) else (
  record p { objs = p.next p.objs; in_use = update p.in_use p.objs true; n_free = p.n_free - 1 },
  p.objs + obj_head,
)

-- `pool_free`
unfoldable pub pool_free : Pool → ℕ → Pool
unfolding push
pool_free p v = let p' = push p (v - obj_head) in record p' { n_free = p'.n_free + 1 }
