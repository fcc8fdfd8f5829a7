-- ===== src/Heap/Returned.antt =====
-- `malloc`, whether there is memory or not.
use agatha.Prelude.{
  ℕ, zero, suc, ◌+◌, ◌*◌, ◌≤◌, ◌<◌, ◌≡◌, refl, sym, ◌∙◌, arith, List, [], ◌∷◌, length, Option, none,
  some,
}
use agatha.Heap.{
  first_size, Heap, Got, got, nothing, below, split, get_chunk, get_at, bin_n, small, malloc,
}
use agatha.Heap.Laws.{Levels}
use agatha.Heap.Malloc.{
  HasBins, Carved, bin_from-lt, malloc-small, malloc-Carved, Levels-lt, chunk_size-le,
}

split-nothing : (size : ℕ) (g : Got) → split size g ≡ nothing → g ≡ nothing
split-nothing size (got c fs bs sizes) e = absurd (cc)
split-nothing size nothing e = refl

below-nothing : (xs : List ℕ) (g : Got) → below xs g ≡ nothing → g ≡ nothing
below-nothing xs (got c fs bs sizes) e = absurd (cc)
below-nothing xs nothing e = refl

get_chunk-nothing :
    (size : ℕ) (frames : List ℕ) (bins : List (List ℕ)) (sizes : ℕ → ℕ)
    → Levels size bins
    → get_chunk size frames bins sizes ≡ nothing
    → frames ≡ []
unfolding get_chunk
get_chunk-nothing size frames [] sizes h e = absurd h
get_chunk-nothing size frames ((c ∷ xs) ∷ bins) sizes h e = absurd (cc)
get_chunk-nothing size [] ([] ∷ []) sizes h e = refl
get_chunk-nothing size (f ∷ fs) ([] ∷ []) sizes h e = absurd (cc)
get_chunk-nothing size frames ([] ∷ (ys ∷ bins)) sizes h e =
    get_chunk-nothing (size * 2) frames (ys ∷ bins) sizes h (split-nothing size _ e)

get_at-nothing :
    (bin size : ℕ) (frames : List ℕ) (bins : List (List ℕ)) (sizes : ℕ → ℕ)
    → Levels size bins
    → bin < length bins
    → get_at bin size frames bins sizes ≡ nothing
    → frames ≡ []
unfolding get_at
get_at-nothing zero size frames bins sizes h lt e = get_chunk-nothing size frames bins sizes h e
get_at-nothing (suc bin) size frames [] sizes h lt e = absurd h
get_at-nothing (suc bin) size frames (xs ∷ []) sizes h lt e = absurd (omega arith)
get_at-nothing (suc bin) size frames (xs ∷ (ys ∷ bins)) sizes h lt e =
    get_at-nothing bin (size * 2) frames (ys ∷ bins) sizes h (omega arith) (below-nothing xs _ e)

small-none : (bin : ℕ) (g : Got) → small bin g ≡ none → g ≡ nothing
small-none bin (got c fs bs sizes) e = absurd (cc)
small-none bin nothing e = refl

-- What `malloc` may come to.
abbrev pub Returned : (len : ℕ) → Heap → Option (ℕ × Heap) → Type 0
Returned len h none = h.frames ≡ []
Returned len h (some (p, h')) = Carved h len p h' (bin_n (len + 4))

Returned-of :
    (len : ℕ) (h : Heap) (r : Option (ℕ × Heap))
    → HasBins h
    → len + 4 ≤ 4096
    → malloc len h ≡ r
    → Returned len h r
Returned-of len h none has short e =
    let bin = bin_n (len + 4) in
    let lt = bin_from-lt 7 first_size (len + 4) short in
    let fits = Levels-lt bin first_size h.bins (omega arith) (chunk_size-le bin lt) has in
    get_at-nothing bin first_size h.frames h.bins h.size has fits
      (small-none bin _ (sym (malloc-small len h short) ∙ e))
Returned-of len h (some (p, h')) has short e = malloc-Carved len h p h' has short e

-- From a heap with its eight bins, a malloc of at most 4092 bytes returns nil only where no frame is
-- to come. Else it takes a chunk with room for them behind its size, and writes the size of the chunk
-- in front of them: every address lies in as many free chunks and frames to come as before, less the
-- chunk, so that nothing is handed out twice and nothing is lost. There are eight bins still.
pub malloc-Returned :
    (len : ℕ) (h : Heap) → HasBins h → len + 4 ≤ 4096 → Returned len h (malloc len h)
malloc-Returned len h has short = Returned-of len h (malloc len h) has short refl
