-- ===== src/Heap/Malloc.antt =====
-- `malloc` and `free` together.
use agatha.Prelude.{
  ℕ, zero, suc, ◌+◌, ◌-◌, ◌*◌, ◌%◌, ◌^◌, ◌≤◌, ◌<◌, ◌≡◌, refl, sym, ap, ◌∙◌, subst, arith, true,
  false, ltb, ◌==◌, Bool-cases, inl, inr, update, update-same, List, [], ◌∷◌, length, some,
}
use agatha.Heap.{
  first_size, n_bins, Heap, Got, got, nothing, get_at, insert_at, bin_from, bin_n, chunk_size,
  small, malloc, free,
}
use agatha.Heap.Cover.{hits, cover}
use agatha.Heap.Laws.{
  frames_cover, Levels, Levels-length, Carves, size_at, get_at-Carves, insert_at-cover,
  bin_from-fits, chunk_size-size_at,
}

-- The free memory: how many chunks and frames to come an address lies in.
abbrev pub heap_cover : ℕ → Heap → ℕ
heap_cover a h = cover a first_size h.bins + frames_cover a h.frames

-- There are the eight bins.
abbrev pub HasBins : Heap → Type 0
HasBins h = Levels first_size h.bins

-- A chunk was taken for `len` bytes at `p`, with its size in front of them.
pub record Carved (h : Heap) (len p : ℕ) (h' : Heap) (bin : ℕ) : Type 0 where
  pub has_bins : HasBins h'
  pub bin_lt : bin < n_bins
  pub behind_size : 4 ≤ p
  pub room : len + 4 ≤ chunk_size bin
  pub marked : h'.size (p - 4) ≡ chunk_size bin
  pub memory : (a : ℕ) → heap_cover a h ≡ heap_cover a h' + hits a (chunk_size bin) (p - 4)

pub bin_from-lt :
    (left size len : ℕ) → len ≤ size_at left size → bin_from (suc left) size len < suc left
unfolding bin_from
bin_from-lt zero size len h = let e : ltb size len ≡ false = ground arith in rw e (omega arith)
bin_from-lt (suc left) size len h = elim (Bool-cases (ltb size len)) [
  | inl e ↦ rw (e, bin_from) (let i = bin_from-lt left (size * 2) len h in omega arith)
  | inr e ↦ rw (e, bin_from) (omega arith)
]

bin_n-chunk_size : (bin : ℕ) → bin < n_bins → bin_n (chunk_size bin) ≡ bin
unfolding bin_from
bin_n-chunk_size zero h = refl
bin_n-chunk_size (suc zero) h = refl
bin_n-chunk_size (suc (suc zero)) h = refl
bin_n-chunk_size (suc (suc (suc zero))) h = refl
bin_n-chunk_size (suc (suc (suc (suc zero)))) h = refl
bin_n-chunk_size (suc (suc (suc (suc (suc zero))))) h = refl
bin_n-chunk_size (suc (suc (suc (suc (suc (suc zero)))))) h = refl
bin_n-chunk_size (suc (suc (suc (suc (suc (suc (suc zero))))))) h = refl
bin_n-chunk_size (suc (suc (suc (suc (suc (suc (suc (suc bin)))))))) h = absurd (omega arith)

pub malloc-small :
    (len : ℕ) (h : Heap)
    → len + 4 ≤ 4096
    → malloc len h
      ≡ small (bin_n (len + 4)) (get_at (bin_n (len + 4)) first_size h.frames h.bins h.size)
unfolding malloc
malloc-small len h short =
    let t : (len + 4) % 2 ^ 32 ≡ len + 4 = omega arith in
    let i = bin_from-lt 7 first_size (len + 4) short in
    let lt : ltb (bin_n (len + 4)) n_bins ≡ true = ground arith in rw (t, malloc) (rw lt refl)

front : (c : ℕ) → c + 4 - 4 ≡ c
front c = omega arith

-- What is recorded of a chunk that was got.
Carved-here :
    (h : Heap) (len c : ℕ) (fs : List ℕ) (bs : List (List ℕ)) (sizes : ℕ → ℕ) (bin : ℕ)
    → HasBins h
    → bin < n_bins
    → len + 4 ≤ chunk_size bin
    → ((a : ℕ) → Carves a first_size (chunk_size bin) h.frames h.bins (got c fs bs sizes))
    → Carved h len
        (c + 4)
        (record { bins = bs; size = update sizes c (chunk_size bin); frames = fs })
        bin
Carved-here h len c fs bs sizes bin has lt room d = record {
  has_bins = Levels-length first_size h.bins bs (d 0).1 has;
  bin_lt = lt;
  behind_size = omega arith;
  room = room;
  marked = ap (update sizes c (chunk_size bin)) (front c) ∙ update-same sizes c (chunk_size bin);
  memory = λ a.
      (d a).0
      ∙ ap (λ x. cover a first_size bs + frames_cover a fs + hits a (chunk_size bin) x)
          (sym (front c));
}

small-Carved :
    (h : Heap) (len p : ℕ) (h' : Heap) (bin : ℕ) (g : Got)
    → HasBins h
    → bin < n_bins
    → len + 4 ≤ chunk_size bin
    → ((a : ℕ) → Carves a first_size (chunk_size bin) h.frames h.bins g)
    → small bin g ≡ some (p, h')
    → Carved h len p h' bin
small-Carved h len p h' bin nothing has lt room d e = absurd (cc)
small-Carved h len p h' bin (got c fs bs sizes) has lt room d e =
    let at : c + 4 ≡ p = cc in
    let same : record { bins = bs; size = update sizes c (chunk_size bin); frames = fs } ≡ h' =
      cc in
    subst (λ x. Carved h len p x bin) same
      (subst
        (λ q.
          Carved h len q (record { bins = bs; size = update sizes c (chunk_size bin); frames = fs })
            bin)
        at (Carved-here h len c fs bs sizes bin has lt room d))

-- From a heap with its eight bins, a malloc of at most 4092 bytes that does not return nil takes a
-- chunk with room for them behind its size, and writes the size of the chunk in front of them: every
-- address lies in as many free chunks and frames to come as before, less the chunk, so that nothing is
-- handed out twice and nothing is lost. There are eight bins still.
pub malloc-Carved :
    (len : ℕ) (h : Heap) (p : ℕ) (h' : Heap)
    → HasBins h
    → len + 4 ≤ 4096
    → malloc len h ≡ some (p, h')
    → Carved h len p h' (bin_n (len + 4))
malloc-Carved len h p h' has short e =
    let bin = bin_n (len + 4) in
    let lt = bin_from-lt 7 first_size (len + 4) short in
    let same = chunk_size-size_at bin lt in
    let enough : len + 4 ≤ chunk_size bin =
      subst (λ n. len + 4 ≤ n) (sym same) (bin_from-fits n_bins first_size (len + 4) lt) in
    small-Carved h len p h' bin (get_at bin first_size h.frames h.bins h.size) has lt enough
      (λ a.
        subst
          (λ n.
            Carves a first_size n h.frames h.bins (get_at bin first_size h.frames h.bins h.size))
          (sym same) (get_at-Carves a bin first_size h.frames h.bins h.size has))
      (sym (malloc-small len h short) ∙ e)

size_at-le : (bin size : ℕ) → size ≤ size_at bin size
size_at-le zero size = omega arith
size_at-le (suc bin) size = let h = size_at-le bin (size * 2) in omega arith

pub Levels-lt :
    (bin size : ℕ) (bins : List (List ℕ))
    → 0 < size
    → size_at bin size ≤ 4096
    → Levels size bins
    → bin < length bins
Levels-lt bin size [] pos le h = absurd h
Levels-lt zero size (xs ∷ bins) pos le h = omega arith
Levels-lt (suc bin) size (xs ∷ []) pos le h =
    absurd (let g = size_at-le bin (size * 2) in omega arith)
Levels-lt (suc bin) size (xs ∷ (ys ∷ bins)) pos le h =
    let i = Levels-lt bin (size * 2) (ys ∷ bins) (omega arith) le h in omega arith

pub chunk_size-le : (bin : ℕ) → bin < n_bins → size_at bin first_size ≤ 4096
chunk_size-le zero h = omega arith
chunk_size-le (suc zero) h = omega arith
chunk_size-le (suc (suc zero)) h = omega arith
chunk_size-le (suc (suc (suc zero))) h = omega arith
chunk_size-le (suc (suc (suc (suc zero)))) h = omega arith
chunk_size-le (suc (suc (suc (suc (suc zero))))) h = omega arith
chunk_size-le (suc (suc (suc (suc (suc (suc zero)))))) h = omega arith
chunk_size-le (suc (suc (suc (suc (suc (suc (suc zero))))))) h = omega arith
chunk_size-le (suc (suc (suc (suc (suc (suc (suc (suc bin)))))))) h = absurd (omega arith)

free-small :
    (p : ℕ) (h : Heap) (bin : ℕ)
    → 4 ≤ p
    → bin < n_bins
    → h.size (p - 4) ≡ chunk_size bin
    → free p h
      ≡ record h { size = update h.size (p - 4) 0; bins = insert_at bin first_size h.bins (p - 4) }
unfolding free
free-small p h bin pos lt marked =
    let z : (p == 0) ≡ false = ground arith in
    let b : bin_n (h.size (p - 4)) ≡ bin = ap bin_n marked ∙ bin_n-chunk_size bin lt in
    let l : ltb bin n_bins ≡ true = ground arith in rw (z, free) (rw b (rw l refl))

-- `free` of a chunk.
pub free-cover :
    (p : ℕ) (h : Heap) (bin a : ℕ)
    → HasBins h
    → 4 ≤ p
    → bin < n_bins
    → h.size (p - 4) ≡ chunk_size bin
    → heap_cover a (free p h) ≡ heap_cover a h + hits a (chunk_size bin) (p - 4)
free-cover p h bin a has pos lt marked =
    let c = p - 4 in
    let fits = Levels-lt bin first_size h.bins (omega arith) (chunk_size-le bin lt) has in
    ap (heap_cover a) (free-small p h bin pos lt marked)
    ∙ ap (λ n. n + frames_cover a h.frames) (insert_at-cover a bin first_size h.bins c fits)
    ∙ swap (cover a first_size h.bins) (hits a (size_at bin first_size) c) (frames_cover a h.frames)
    ∙ ap (λ n. heap_cover a h + hits a n c) (sym (chunk_size-size_at bin lt))
  where
    swap : (x y z : ℕ) → x + y + z ≡ x + z + y
    swap x y z = omega arith

-- From a heap with its eight bins, after a malloc of at most 4092 bytes that does not return nil, free
-- of what it returned gives the memory back: every address lies in as many free chunks and frames to
-- come as before.
pub free-malloc :
    (len : ℕ) (h : Heap) (p : ℕ) (h' : Heap)
    → HasBins h
    → len + 4 ≤ 4096
    → malloc len h ≡ some (p, h')
    → (a : ℕ) → heap_cover a (free p h') ≡ heap_cover a h
free-malloc len h p h' has short e a =
    let d = malloc-Carved len h p h' has short e in
    free-cover p h' (bin_n (len + 4)) a d.has_bins d.behind_size d.bin_lt d.marked
    ∙ sym (d.memory a)
