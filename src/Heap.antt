-- ===== src/Heap.antt =====
-- The heap of a process, lib/mem/alloc.c: bins of free chunks, whose sizes are the powers of two from 32
-- to 4096, linked in the order of their addresses. A chunk is its address, and what it keeps of its
-- `size` is in a map from addresses. The frames that `request_memory` and `frame_map_anywhere` will
-- give are a list of addresses; where it is empty, they fail.
pub mod Cover
pub mod Laws
pub mod Malloc
pub mod Returned
pub mod Tests
use agatha.Prelude.{
  ℕ, zero, suc, ◌+◌, ◌-◌, ◌*◌, ◌/◌, ◌%◌, ◌^◌, Bool, true, false, not, ◌&&◌, ltb, leb, ◌==◌,
  if◌then◌else◌, update, Option, none, some, List, [], ◌∷◌,
}

-- CHUNK_SIZE(0)
abbrev pub first_size : ℕ
first_size = 32

-- BIN_MAX + 1
abbrev pub n_bins : ℕ
n_bins = 8

-- `c == align_up(c, size)`
abbrev pub is_aligned : (c size : ℕ) → Bool
is_aligned c size = c == (c + (size - 1)) / size * size

-- What the loop of `insert_chunk` comes to: the list with the chunk in it, or a chunk of the next size
-- and the list without the other half.
pub data Walked : Type 0 where
  placed : (xs : List ℕ) → Walked
  merged : (c : ℕ) (xs : List ℕ) → Walked

abbrev pub past : ℕ → Walked → Walked
past x (placed xs) = placed (x ∷ xs)
past x (merged c xs) = merged c (x ∷ xs)

abbrev pub next_is : ℕ → List ℕ → Bool
next_is a [] = false
next_is a (y ∷ ys) = a == y

abbrev pub without_first : List ℕ → List ℕ
without_first [] = []
without_first (y ∷ ys) = ys

-- The loop of `insert_chunk`; the last bin does not merge. The other half of an aligned chunk is looked
-- for behind `x`, so not at the head of the list.
unfoldable pub insert_walk : (merges : Bool) → (c size : ℕ) → List ℕ → Walked
insert_walk merges c size [] = placed (c ∷ [])
insert_walk merges c size (x ∷ xs) =
    let a = is_aligned c (size * 2) in
    let later = past x (insert_walk merges c size xs) in
    if merges && a && next_is (c + size) xs
    then merged c (x ∷ without_first xs)
    else if merges && not a && x + size == c
    then merged x xs
    else if ltb c x
    then placed (c ∷ x ∷ xs)
    else later

-- `insert_chunk` into the first of the bins that are left, whose chunks have this size.
unfoldable pub insert_chunk : (size : ℕ) → List (List ℕ) → (c : ℕ) → List (List ℕ)
insert_chunk size [] c = []
insert_chunk size (xs ∷ []) c = elim (insert_walk false c size xs) [
  | placed ys ↦ ys ∷ []
  | merged d ys ↦ ys ∷ []
]
insert_chunk size (xs ∷ (ys ∷ bins)) c = elim (insert_walk true c size xs) [
  | placed zs ↦ zs ∷ ys ∷ bins
  | merged d zs ↦ zs ∷ insert_chunk (size * 2) (ys ∷ bins) d
]

pub record Heap : Type 0 where
  pub bins : List (List ℕ)
  pub size : ℕ → ℕ
  pub frames : List ℕ

-- A chunk that was taken, and what is left; or nil.
pub data Got : Type 0 where
  got : (c : ℕ) (frames : List ℕ) (bins : List (List ℕ)) (size : ℕ → ℕ) → Got
  nothing : Got

abbrev pub below : List ℕ → Got → Got
below xs (got c frames bins size) = got c frames (xs ∷ bins) size
below xs nothing = nothing

-- The half of a chunk of the next bin that is left over.
abbrev pub split : (size : ℕ) → Got → Got
split size (got c frames bins sizes) =
    got c frames (insert_chunk size ([] ∷ bins) (c + size)) (update sizes (c + size) 0)
split size nothing = nothing

abbrev pub fresh : (frames : List ℕ) → (ℕ → ℕ) → Got
fresh [] size = nothing
fresh (f ∷ frames) size = got f frames ([] ∷ []) size

-- `get_chunk` from the first of the bins that are left. For the last bin a page is one chunk, and the
-- loop over the rest of the page does nothing.
unfoldable pub get_chunk : (size : ℕ) → (frames : List ℕ) → List (List ℕ) → (ℕ → ℕ) → Got
unfolding insert_chunk
get_chunk size frames [] sizes = nothing
get_chunk size frames ((c ∷ xs) ∷ bins) sizes = got c frames (xs ∷ bins) sizes
get_chunk size frames ([] ∷ []) sizes = fresh frames sizes
get_chunk size frames ([] ∷ (ys ∷ bins)) sizes =
    split size (get_chunk (size * 2) frames (ys ∷ bins) sizes)

-- `get_chunk` and `insert_chunk` at a bin.
unfoldable pub get_at : (bin size : ℕ) → (frames : List ℕ) → List (List ℕ) → (ℕ → ℕ) → Got
unfolding get_chunk
get_at zero size frames bins sizes = get_chunk size frames bins sizes
get_at (suc bin) size frames [] sizes = nothing
get_at (suc bin) size frames (xs ∷ bins) sizes = below xs (get_at bin (size * 2) frames bins sizes)

unfoldable pub insert_at : (bin size : ℕ) → List (List ℕ) → (c : ℕ) → List (List ℕ)
unfolding insert_chunk
insert_at zero size bins c = insert_chunk size bins c
insert_at (suc bin) size [] c = []
insert_at (suc bin) size (xs ∷ bins) c = xs ∷ insert_at bin (size * 2) bins c

-- The loop of `bin_n` with so many bins left.
unfoldable pub bin_from : (left size len : ℕ) → ℕ
bin_from zero size len = 0
bin_from (suc left) size len =
    let later = bin_from left (size * 2) len in if ltb size len then suc later else 0

abbrev pub bin_n : ℕ → ℕ
bin_n len = bin_from n_bins first_size len

-- CHUNK_SIZE
abbrev pub chunk_size : ℕ → ℕ
chunk_size bin = 2 ^ (bin + 5)

-- `malloc`: what it returns, where `none` is nil.
abbrev pub small : (bin : ℕ) → Got → Option (ℕ × Heap)
small bin (got c frames bins size) =
    some (c + 4, record { bins = bins; size = update size c (chunk_size bin); frames = frames })
small bin nothing = none

abbrev pub large : (len : ℕ) → Heap → List ℕ → Option (ℕ × Heap)
large len h [] = none
large len h (b ∷ frames) = some (b + 4, record h { size = update h.size b len; frames = frames })

unfoldable pub malloc : (len : ℕ) → Heap → Option (ℕ × Heap)
malloc len h =
    let total = (len + 4) % 2 ^ 32 in
    let bin = bin_n total in
    if ltb bin n_bins
    then small bin (get_at bin first_size h.frames h.bins h.size)
    else large ((total + 4095) % 2 ^ 32 / 4096 * 4096) h h.frames

-- `free`; a buffer larger than a chunk stays.
unfoldable pub free : ℕ → Heap → Heap
free p h =
    let c = p - 4 in
    let bin = bin_n (h.size c) in
    if p == 0
    then h
    else if ltb bin n_bins
    then record h { size = update h.size c 0; bins = insert_at bin first_size h.bins c }
    else h
