-- ===== src/Heap/Tests.antt =====
-- A heap with one chunk of 64 bytes, from which 20 bytes are taken.
use agatha.Prelude.{◌≡◌, refl, arith, some, [], ◌∷◌, update}
use agatha.Heap.{Heap, malloc, free, bin_from, get_at, get_chunk, insert_chunk, insert_walk}
use agatha.Heap.Returned.{Returned, malloc-Returned}
use agatha.Heap.Malloc.{heap_cover, free-malloc}

abbrev a_heap : Heap
a_heap = record {
  bins = [] ∷ (256 ∷ []) ∷ [] ∷ [] ∷ [] ∷ [] ∷ [] ∷ [] ∷ [];
  size = λ _. 0;
  frames = [];
}

abbrev used : Heap
used = record {
  bins = (288 ∷ []) ∷ [] ∷ [] ∷ [] ∷ [] ∷ [] ∷ [] ∷ [] ∷ [];
  size = update (update (λ _. 0) 288 0) 256 32;
  frames = [];
}

takes : malloc 20 a_heap ≡ some (260, used)
unfolding malloc bin_from get_at get_chunk insert_chunk insert_walk
takes = refl

malloc-Returned_example : Returned 20 a_heap (malloc 20 a_heap)
malloc-Returned_example = malloc-Returned 20 a_heap refl (omega arith)

free-malloc_example : heap_cover 270 (free 260 used) ≡ heap_cover 270 a_heap
free-malloc_example = free-malloc 20 a_heap 260 used refl (omega arith) takes 270
