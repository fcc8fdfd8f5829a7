-- ===== src/Fat/Chains.antt =====
-- The clusters of a file, and the loop of fat_file_size in lib/fat/fat.c over them.
use agatha.Prelude.{
  ℕ, zero, suc, ◌+◌, ◌*◌, ◌^◌, ◌<◌, ◌≡◌, ◌≢◌, refl, sym, ap, ◌∙◌, arith, true, false, ◌==◌, none,
  some, List, [], ◌∷◌, length,
}
use agatha.Fat.{Disk, Fat, w32, next_cluster, cluster_bytes, size_loop, file_size}
use native.Mathlib.Nat.{mul-suc, mul-zero}

-- The clusters from `c` on, up to an end.
abbrev pub Chain : Disk → Fat → (c : ℕ) → List ℕ → Type 0
Chain disk fat c [] = c ≡ 0
Chain disk fat c (d ∷ cs) = (c ≡ d) × (c ≢ 0) × Chain disk fat (next_cluster disk fat c) cs

-- The cluster after `n` more.
abbrev pub cluster_after : Disk → Fat → (n c : ℕ) → ℕ
cluster_after disk fat zero c = c
cluster_after disk fat (suc n) c = cluster_after disk fat n (next_cluster disk fat c)

size_loop-Chain :
    (cs : List ℕ) (fuel : ℕ) (disk : Disk) (fat : Fat) (c s : ℕ)
    → Chain disk fat c cs
    → length cs < fuel
    → s < 2 ^ 32
    → size_loop fuel disk fat c s ≡ some (w32 (s + cluster_bytes fat * length cs))
unfolding size_loop
size_loop-Chain cs zero disk fat c s h lt small = absurd (omega arith)
size_loop-Chain [] (suc fuel) disk fat c s h lt small =
    let ended : (c == 0) ≡ true = ground arith in
    rw (ended, size_loop) (ap some (sym (rw (mul-zero (cluster_bytes fat)) (omega arith))))
size_loop-Chain (d ∷ cs) (suc fuel) disk fat c s (is, used, later) lt small =
    let more : (c == 0) ≡ false = ground arith in
    let all : cluster_bytes fat * suc (length cs)
        ≡ cluster_bytes fat * length cs + cluster_bytes fat =
      mul-suc (cluster_bytes fat) (length cs) in
    rw (more, size_loop)
      (size_loop-Chain cs fuel disk fat (next_cluster disk fat c) (w32 (s + cluster_bytes fat))
          later (omega arith) (omega arith)
        ∙ ap some (omega (arith, all)))

-- From a start cluster that is not 0, for a chain of clusters that comes to an end, with more fuel
-- than clusters, fat_file_size ends and gives the bytes of all its clusters modulo 2 ^ 32.
pub file_size-Chain :
    (cs : List ℕ) (fuel : ℕ) (disk : Disk) (fat : Fat) (c : ℕ)
    → Chain disk fat c cs
    → c ≢ 0
    → length cs < fuel
    → file_size fuel disk fat c ≡ some (w32 (cluster_bytes fat * length cs))
unfolding file_size
file_size-Chain cs fuel disk fat c h used lt =
    let more : (c == 0) ≡ false = ground arith in
    rw (more, file_size)
      (size_loop-Chain cs fuel disk fat c 0 h lt (omega arith) ∙ ap some (ap w32 (omega arith)))

size_loop-never_ends :
    (fuel : ℕ) (disk : Disk) (fat : Fat) (c s : ℕ)
    → ((n : ℕ) → cluster_after disk fat n c ≢ 0)
    → size_loop fuel disk fat c s ≡ none
unfolding size_loop
size_loop-never_ends zero disk fat c s h = refl
size_loop-never_ends (suc fuel) disk fat c s h =
    let used : c ≢ 0 = h 0 in
    let more : (c == 0) ≡ false = ground arith in
    rw (more, size_loop)
      (size_loop-never_ends fuel disk fat (next_cluster disk fat c) (w32 (s + cluster_bytes fat))
        (λ n. h (suc n)))

pub file_size-never_ends :
    (fuel : ℕ) (disk : Disk) (fat : Fat) (c : ℕ)
    → ((n : ℕ) → cluster_after disk fat n c ≢ 0)
    → file_size fuel disk fat c ≡ none
unfolding file_size
file_size-never_ends fuel disk fat c h =
    let used : c ≢ 0 = h 0 in
    let more : (c == 0) ≡ false = ground arith in
    rw (more, file_size) (size_loop-never_ends fuel disk fat c 0 h)
