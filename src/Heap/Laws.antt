-- ===== src/Heap/Laws.antt =====
-- What `malloc` takes and `free` gives back.
use agatha.Prelude.{
  ℕ, zero, suc, ◌+◌, ◌*◌, ◌≤◌, ◌<◌, ◌≡◌, refl, sym, ap, ◌∙◌, subst, arith, true, false, ltb,
  Bool-cases, inl, inr, List, [], ◌∷◌, length,
}
use agatha.Heap.{
  first_size, n_bins, insert_walk, insert_chunk, Got, got, nothing, below, split, get_chunk, get_at,
  insert_at, bin_from, chunk_size,
}
use agatha.Heap.Cover.{hits, bin_cover, cover, halves, walked_cases, insert_chunk-cover}

-- The frames that are still to come, of a page each.
abbrev pub frames_cover : (a : ℕ) → List ℕ → ℕ
frames_cover a [] = 0
frames_cover a (f ∷ fs) = hits a 4096 f + frames_cover a fs

-- The chunks of the last bin are pages.
abbrev pub Levels : (size : ℕ) → List (List ℕ) → Type 0
Levels size [] = ⊥
Levels size (xs ∷ []) = size ≡ 4096
Levels size (xs ∷ (ys ∷ bins)) = Levels (size * 2) (ys ∷ bins)

pub Levels-length :
    (size : ℕ) (bins bins' : List (List ℕ))
    → length bins' ≡ length bins
    → Levels size bins
    → Levels size bins'
Levels-length size [] bins' e h = absurd h
Levels-length size (xs ∷ []) [] e h = absurd (omega arith)
Levels-length size (xs ∷ []) (ys ∷ []) e h = h
Levels-length size (xs ∷ []) (ys ∷ (zs ∷ bins')) e h = absurd (omega arith)
Levels-length size (xs ∷ (ys ∷ bins)) [] e h = absurd (omega arith)
Levels-length size (xs ∷ (ys ∷ bins)) (zs ∷ []) e h = absurd (omega arith)
Levels-length size (xs ∷ (ys ∷ bins)) (zs ∷ (ws ∷ bins')) e h =
    Levels-length (size * 2) (ys ∷ bins) (ws ∷ bins') (omega arith) h

length-insert_chunk :
    (size : ℕ) (bins : List (List ℕ)) (c : ℕ) → length (insert_chunk size bins c) ≡ length bins
unfolding insert_chunk
length-insert_chunk size [] c = refl
length-insert_chunk size (xs ∷ []) c = elim (walked_cases (insert_walk false c size xs)) [
  | inl (ys, e) ↦ rw (e, insert_chunk) refl
  | inr (d, ys, e) ↦ rw (e, insert_chunk) refl
]
length-insert_chunk size (xs ∷ (ys ∷ bins)) c = elim (walked_cases (insert_walk true c size xs)) [
  | inl (zs, e) ↦ rw (e, insert_chunk) refl
  | inr (d, zs, e) ↦ rw (e, insert_chunk) (ap suc (length-insert_chunk (size * 2) (ys ∷ bins) d))
]

-- A chunk of this size is taken out of the bins and the frames to come.
abbrev pub Carves : (a size chunk : ℕ) → List ℕ → List (List ℕ) → Got → Type 0
Carves a size chunk frames bins (got c fs bs sizes) =
    (cover a size bins + frames_cover a frames
      ≡ cover a size bs + frames_cover a fs + hits a chunk c)
    × (length bs ≡ length bins)
Carves a size chunk frames bins nothing = Unit

Carves-split :
    (a size : ℕ) (frames : List ℕ) (bins : List (List ℕ)) (g : Got)
    → 0 < length bins
    → Carves a (size * 2) (size * 2) frames bins g
    → Carves a size size frames ([] ∷ bins) (split size g)
Carves-split a size frames bins nothing h d = tt
Carves-split a size frames bins (got c fs bs sizes) h (e, n) =
    let inserted = insert_chunk-cover a size ([] ∷ bs) (c + size) (omega arith) in
    let two = halves a size c in
    (
      parts (cover a (size * 2) bins) (frames_cover a frames) (cover a (size * 2) bs)
          (frames_cover a fs) (hits a (size * 2) c) (hits a size c) (hits a size (c + size))
          (cover a size (insert_chunk size ([] ∷ bs) (c + size))) e two inserted,
      length-insert_chunk size ([] ∷ bs) (c + size) ∙ ap suc n,
    )
  where
    parts :
        (b f b' f' d x y i : ℕ)
        → b + f ≡ b' + f' + d
        → x + y ≡ d
        → i ≡ 0 + b' + y
        → 0 + b + f ≡ i + f' + x
    parts b f b' f' d x y i e two ins = omega arith

get_chunk-Carves :
    (a size : ℕ) (frames : List ℕ) (bins : List (List ℕ)) (sizes : ℕ → ℕ)
    → Levels size bins
    → Carves a size size frames bins (get_chunk size frames bins sizes)
unfolding get_chunk
get_chunk-Carves a size frames [] sizes h = tt
get_chunk-Carves a size frames ((c ∷ xs) ∷ bins) sizes h = (
  taken (hits a size c) (bin_cover a size xs) (cover a (size * 2) bins) (frames_cover a frames),
  refl,
)
  where
    taken : (x xs b f : ℕ) → x + xs + b + f ≡ xs + b + f + x
    taken x xs b f = omega arith
get_chunk-Carves a size [] ([] ∷ []) sizes h = tt
get_chunk-Carves a size (f ∷ fs) ([] ∷ []) sizes h = (
  paged (hits a 4096 f) (frames_cover a fs) ∙ ap (λ n. 0 + frames_cover a fs + hits a n f) (sym h),
  refl,
)
  where
    paged : (x f : ℕ) → 0 + (x + f) ≡ 0 + f + x
    paged x f = omega arith
get_chunk-Carves a size frames ([] ∷ (ys ∷ bins)) sizes h =
    Carves-split a size frames (ys ∷ bins) (get_chunk (size * 2) frames (ys ∷ bins) sizes)
      (omega arith) (get_chunk-Carves a (size * 2) frames (ys ∷ bins) sizes h)

-- The size of the chunks of a bin behind one of this size.
abbrev pub size_at : (bin size : ℕ) → ℕ
size_at zero size = size
size_at (suc bin) size = size_at bin (size * 2)

Carves-below :
    (a size chunk : ℕ) (frames : List ℕ) (xs : List ℕ) (bins : List (List ℕ)) (g : Got)
    → Carves a (size * 2) chunk frames bins g
    → Carves a size chunk frames (xs ∷ bins) (below xs g)
Carves-below a size chunk frames xs bins nothing d = tt
Carves-below a size chunk frames xs bins (got c fs bs sizes) (e, n) = (
  more (bin_cover a size xs) (cover a (size * 2) bins) (frames_cover a frames)
      (cover a (size * 2) bs) (frames_cover a fs) (hits a chunk c) e,
  ap suc n,
)
  where
    more : (x b f b' f' d : ℕ) → b + f ≡ b' + f' + d → x + b + f ≡ x + b' + f' + d
    more x b f b' f' d e = omega arith

get_at-none :
    (bin size : ℕ) (frames : List ℕ) (sizes : ℕ → ℕ) → get_at bin size frames [] sizes ≡ nothing
unfolding get_at get_chunk
get_at-none zero size frames sizes = refl
get_at-none (suc bin) size frames sizes = refl

pub get_at-Carves :
    (a bin size : ℕ) (frames : List ℕ) (bins : List (List ℕ)) (sizes : ℕ → ℕ)
    → Levels size bins
    → Carves a size (size_at bin size) frames bins (get_at bin size frames bins sizes)
unfolding get_at
get_at-Carves a zero size frames bins sizes h = get_chunk-Carves a size frames bins sizes h
get_at-Carves a (suc bin) size frames [] sizes h = tt
get_at-Carves a (suc bin) size frames (xs ∷ []) sizes h =
    subst (Carves a size (size_at bin (size * 2)) frames (xs ∷ []))
      (ap (below xs) (sym (get_at-none bin (size * 2) frames sizes))) tt
get_at-Carves a (suc bin) size frames (xs ∷ (ys ∷ bins)) sizes h =
    Carves-below a size (size_at bin (size * 2)) frames xs (ys ∷ bins)
      (get_at bin (size * 2) frames (ys ∷ bins) sizes)
      (get_at-Carves a bin (size * 2) frames (ys ∷ bins) sizes h)

pub insert_at-cover :
    (a bin size : ℕ) (bins : List (List ℕ)) (c : ℕ)
    → bin < length bins
    → cover a size (insert_at bin size bins c) ≡ cover a size bins + hits a (size_at bin size) c
unfolding insert_at
insert_at-cover a zero size bins c h = insert_chunk-cover a size bins c h
insert_at-cover a (suc bin) size [] c h = absurd (omega arith)
insert_at-cover a (suc bin) size (xs ∷ bins) c h =
    let i = insert_at-cover a bin (size * 2) bins c (omega arith) in
    assoc (bin_cover a size xs) (cover a (size * 2) (insert_at bin (size * 2) bins c))
      (cover a (size * 2) bins) (hits a (size_at bin (size * 2)) c) i
  where
    assoc : (x i b d : ℕ) → i ≡ b + d → x + i ≡ x + b + d
    assoc x i b d e = omega arith

pub length-insert_at :
    (bin size : ℕ) (bins : List (List ℕ)) (c : ℕ) → length (insert_at bin size bins c) ≡ length bins
unfolding insert_at
length-insert_at zero size bins c = length-insert_chunk size bins c
length-insert_at (suc bin) size [] c = refl
length-insert_at (suc bin) size (xs ∷ bins) c = ap suc (length-insert_at bin (size * 2) bins c)

-- The bin is the first whose chunks are large enough.
pub bin_from-fits :
    (left size len : ℕ)
    → bin_from left size len < left
    → len ≤ size_at (bin_from left size len) size
unfolding bin_from
bin_from-fits zero size len h = absurd (omega arith)
bin_from-fits (suc left) size len h = elim (Bool-cases (ltb size len)) [
  | inl e ↦
      let h' : suc (bin_from left (size * 2) len) < suc left = rw (e, bin_from) at h in
      rw (e, bin_from) (bin_from-fits left (size * 2) len (omega arith))
  | inr e ↦ rw (e, bin_from) (ground arith)
]

pub chunk_size-size_at : (bin : ℕ) → bin < n_bins → chunk_size bin ≡ size_at bin first_size
chunk_size-size_at zero h = refl
chunk_size-size_at (suc zero) h = refl
chunk_size-size_at (suc (suc zero)) h = refl
chunk_size-size_at (suc (suc (suc zero))) h = refl
chunk_size-size_at (suc (suc (suc (suc zero)))) h = refl
chunk_size-size_at (suc (suc (suc (suc (suc zero))))) h = refl
chunk_size-size_at (suc (suc (suc (suc (suc (suc zero)))))) h = refl
chunk_size-size_at (suc (suc (suc (suc (suc (suc (suc zero))))))) h = refl
chunk_size-size_at (suc (suc (suc (suc (suc (suc (suc (suc bin)))))))) h = absurd (omega arith)
