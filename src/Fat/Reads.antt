-- ===== src/Fat/Reads.antt =====
-- The requests of fat_file_read in lib/fat/fat.c.
use agatha.Prelude.{
  ℕ, zero, suc, ◌+◌, ◌-◌, ◌*◌, ◌^◌, ◌%◌, ◌<◌, ◌≤◌, ◌≡◌, refl, sym, ap, subst, arith, true, false,
  ◌||◌, ltb, leb, ◌==◌, some, List, [], ◌∷◌, length, take, drop,
}
use agatha.Fat.{
  Disk, Fat, Read, w32, next_cluster, cluster_bytes, cluster_read, read_ok, read_loop, file_read,
}
use agatha.Fat.Chains.{Chain}
use native.Mathlib.Nat.{mul-suc, mul-zero, mul-mod_right, mul-le-mul_left}

-- Every read is answered.
abbrev pub Serves : Disk → Type 0
Serves disk = (blk n : ℕ) → (bytes : ℕ → ℕ) × (disk blk n ≡ some bytes)

-- One request for each cluster, `cluster_bytes` apart in the frame, beginning with number `i`.
abbrev pub cluster_reads : Fat → (frame_offset i : ℕ) → List ℕ → List Read
cluster_reads fat frame_offset i [] = []
cluster_reads fat frame_offset i (c ∷ cs) =
    cluster_read fat (w32 (frame_offset + cluster_bytes fat * i)) c
    ∷ cluster_reads fat frame_offset (suc i) cs

-- `m` clusters are what `len` bytes need.
abbrev pub Needs : Fat → (len m : ℕ) → Type 0
Needs fat len m =
    (len ≤ cluster_bytes fat * m)
    × (cluster_bytes fat * m < len + cluster_bytes fat)
    × (cluster_bytes fat * m < 2 ^ 32)

more_needed :
    (fat : Fat) (len m i n : ℕ)
    → Needs fat len m
    → i + suc n ≡ m
    → leb len (cluster_bytes fat * i) ≡ false
more_needed fat len m i n (le, lt, small) e =
    let step : cluster_bytes fat * suc i ≡ cluster_bytes fat * i + cluster_bytes fat =
      mul-suc (cluster_bytes fat) i in
    let up : cluster_bytes fat * suc i ≤ cluster_bytes fat * m =
      mul-le-mul_left (cluster_bytes fat) (omega arith) in
    ground arith

-- The offset of the next cluster does not wrap around.
next_off :
    (fat : Fat) (len m i n : ℕ)
    → Needs fat len m
    → i + suc n ≡ m
    → w32 (cluster_bytes fat * i + cluster_bytes fat) ≡ cluster_bytes fat * suc i
next_off fat len m i n (le, lt, small) e =
    let step : cluster_bytes fat * suc i ≡ cluster_bytes fat * i + cluster_bytes fat =
      mul-suc (cluster_bytes fat) i in
    let up : cluster_bytes fat * suc i ≤ cluster_bytes fat * m =
      mul-le-mul_left (cluster_bytes fat) (omega arith) in
    omega arith

take_none : (n : ℕ) → take {A = Read} n [] ≡ []
take_none zero = refl
take_none (suc n) = refl

read_loop-reads :
    (cs : List ℕ) (n fuel : ℕ) (disk : Disk) (fat : Fat) (c f i m len : ℕ)
    → Serves disk
    → Chain disk fat c cs
    → Needs fat len m
    → length cs < fuel
    → i + n ≡ m
    → read_loop fuel disk fat c f 0 (cluster_bytes fat * i) len
      ≡ read_ok (take n (cluster_reads fat f i cs))
unfolding read_loop
read_loop-reads cs n zero disk fat c f i m len serves h needs lt e = absurd (omega arith)
read_loop-reads [] n (suc fuel) disk fat c f i m len serves h needs lt e =
    let ended : (c == 0 || leb len (cluster_bytes fat * i)) ≡ true = rw h refl in
    rw (ended, read_loop) (ap read_ok (sym (take_none n)))
read_loop-reads (d ∷ cs) zero (suc fuel) disk fat c f i m len serves (is, used, later) needs lt e =
    let same : i ≡ m = omega arith in
    let full : leb len (cluster_bytes fat * i) ≡ true = rw same (ground arith) in
    let first : (c == 0) ≡ false = ground arith in
    let ended : (c == 0 || leb len (cluster_bytes fat * i)) ≡ true = rw first (rw full refl) in
    rw (ended, read_loop) refl
read_loop-reads (d ∷ cs) (suc n) (suc fuel) disk fat c f i m len serves (is, used, later) needs lt
      e =
    let first : (c == 0) ≡ false = ground arith in
    let more : (c == 0 || leb len (cluster_bytes fat * i)) ≡ false =
      rw first (rw (more_needed fat len m i n needs e) refl) in
    let r = cluster_read fat (w32 (f + cluster_bytes fat * i)) c in
    rw (more, read_loop)
      (rw (serves r.blk r.n_blks).1 (
        rw (next_off fat len m i n needs e) (
          rw
            (read_loop-reads cs n fuel disk fat (next_cluster disk fat c) f (suc i) m len serves
              later needs (omega arith) (omega arith))
            (ap
              (λ x. read_ok (
                cluster_read fat (w32 (f + cluster_bytes fat * i)) x
                ∷ take n (cluster_reads fat f (suc i) cs)))
              is))))

read_loop-drop :
    (cs : List ℕ) (k fuel : ℕ) (disk : Disk) (fat : Fat) (c f m len : ℕ)
    → Serves disk
    → Chain disk fat c cs
    → Needs fat len m
    → length cs < fuel
    → 0 < len
    → 0 < cluster_bytes fat
    → read_loop fuel disk fat c f (cluster_bytes fat * k) 0 len
      ≡ read_ok (take m (cluster_reads fat f 0 (drop k cs)))
unfolding read_loop
read_loop-drop cs k zero disk fat c f m len serves h needs lt some_len some_bytes =
    absurd (omega arith)
read_loop-drop cs zero (suc fuel) disk fat c f m len serves h needs lt some_len some_bytes =
    let start = mul-zero (cluster_bytes fat) in
    subst
      (λ x. read_loop (suc fuel) disk fat c f x 0 len ≡ read_ok (take m (cluster_reads fat f 0 cs)))
      (sym start)
      (subst
        (λ x.
          read_loop (suc fuel) disk fat c f 0 x len ≡ read_ok (take m (cluster_reads fat f 0 cs)))
        start
        (read_loop-reads cs m (suc fuel) disk fat c f 0 m len serves h needs lt (omega arith)))
read_loop-drop [] (suc k) (suc fuel) disk fat c f m len serves h needs lt some_len some_bytes =
    let ended : (c == 0 || leb len 0) ≡ true = rw h refl in
    rw (ended, read_loop) (ap read_ok (sym (take_none m)))
read_loop-drop (d ∷ cs) (suc k) (suc fuel) disk fat c f m len serves (is, used, later) needs lt
      some_len some_bytes =
    let first : (c == 0) ≡ false = ground arith in
    let empty : leb len 0 ≡ false = ground arith in
    let more : (c == 0 || leb len 0) ≡ false = rw first (rw empty refl) in
    let step : cluster_bytes fat * suc k ≡ cluster_bytes fat * k + cluster_bytes fat =
      mul-suc (cluster_bytes fat) k in
    let behind : ltb 0 (cluster_bytes fat * suc k) ≡ true = ground arith in
    let left : cluster_bytes fat * suc k - cluster_bytes fat ≡ cluster_bytes fat * k =
      omega arith in
    rw (more, read_loop)
      (rw behind (
        rw left (
          read_loop-drop cs k fuel disk fat (next_cluster disk fat c) f m len serves later needs
            (omega arith) some_len some_bytes)))

-- Where every read is answered, fat_file_read of a file from an offset of k clusters on asks for its
-- clusters behind the first k, in the order of the chain, for as many as len bytes need or the chain
-- has, with each at its own cluster of the frame, and returns OK; the bytes that are needed are below
-- 2 ^ 32.
pub file_read-reads :
    (cs : List ℕ) (k fuel : ℕ) (disk : Disk) (fat : Fat) (c f m len : ℕ)
    → Serves disk
    → Chain disk fat c cs
    → Needs fat len m
    → length cs < fuel
    → 0 < len
    → 0 < cluster_bytes fat
    → file_read fuel disk fat c f (cluster_bytes fat * k) len
      ≡ read_ok (take m (cluster_reads fat f 0 (drop k cs)))
unfolding file_read
file_read-reads cs k fuel disk fat c f m len serves h needs lt some_len some_bytes =
    let aligned : (cluster_bytes fat * k % cluster_bytes fat == 0) ≡ true =
      rw (mul-mod_right (cluster_bytes fat) k) refl in
    rw (aligned, file_read)
      (read_loop-drop cs k fuel disk fat c f m len serves h needs lt some_len some_bytes)
