-- ===== src/Virtq/Tests.antt =====
-- A queue of four descriptors.
use agatha.Prelude.{ℕ, ◌+◌, ◌<◌, ◌≡◌, ◌≢◌, refl, arith, none, some, [], ◌∷◌, All}
use agatha.Virtq.{
  Virtq, virtq_size, no_desc, get_desc, free_desc, virtq_push, virtq_pop, link_descs, new_queue,
  init,
}
use agatha.Virtq.Descs.{FreeDescs, Gets, get_desc-FreeDescs, upwards, init-FreeDescs}
use agatha.Virtq.Rings.{pops, pops-stale, pops-items}

virtq_size-4 : virtq_size 4 ≡ 8192
unfolding virtq_size
virtq_size-4 = refl

pushed : (virtq_push (new_queue 4) 3).avail_rings 0 ≡ 3
unfolding virtq_push
pushed = refl

init-FreeDescs_example : (q : Virtq) × (init 8 4 ≡ some q) × FreeDescs q (upwards 0 4)
init-FreeDescs_example = init-FreeDescs 8 3 (omega arith) (omega arith)

new_queue-FreeDescs : FreeDescs (new_queue 4) (0 ∷ 1 ∷ 2 ∷ 3 ∷ [])
unfolding link_descs
new_queue-FreeDescs =
    (refl, omega arith, (refl, omega arith, (refl, omega arith, (refl, omega arith, refl))))

get_desc-FreeDescs_example :
    Gets (new_queue 4) (0 ∷ 1 ∷ 2 ∷ 3 ∷ []) (get_desc (new_queue 4))
    × ((i : ℕ)
        → All (λ x. x ≢ i) (0 ∷ 1 ∷ 2 ∷ 3 ∷ [])
        → i < no_desc
        → FreeDescs (free_desc (new_queue 4) i) (i ∷ 0 ∷ 1 ∷ 2 ∷ 3 ∷ []))
get_desc-FreeDescs_example =
    get_desc-FreeDescs (new_queue 4) (0 ∷ 1 ∷ 2 ∷ 3 ∷ []) new_queue-FreeDescs

-- Two items that the device has used.
abbrev used : Virtq
used = record (new_queue 4) { used_index = 2; used_rings = λ i. i + 7 }

pops-items_example : (q : Virtq) × (pops 2 used ≡ some (7 ∷ 8 ∷ [], q)) × (virtq_pop q ≡ none)
pops-items_example = pops-items 2 used refl (omega arith)

-- The index of the device has come around to 0, with all items taken.
abbrev around : Virtq
around = record (new_queue 4) { last_seen_used = 65536 }

pops-stale_example : (q : Virtq) × (pops 3 around ≡ some (0 ∷ 0 ∷ 0 ∷ [], q)) × (q.used_index ≡ 0)
pops-stale_example = pops-stale 65536 3 around refl refl (omega arith) (omega arith)
