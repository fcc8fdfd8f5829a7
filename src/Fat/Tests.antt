-- ===== src/Fat/Tests.antt =====
-- A small file system: the boot sector, the table and the root directory, of 64 bytes each, and the file
-- "ab.c" in clusters 2 and 3.
use agatha.Prelude.{
  ℕ, zero, suc, ◌+◌, ◌*◌, ◌≡◌, ◌≢◌, refl, arith, true, Option, none, some, List, [], ◌∷◌, update,
}
use agatha.Text.{strncmp}
use agatha.Fat.{
  Disk, Fat, FatFile, table_info, next_cluster, file_size, size_loop, file_read, read_ok,
}
use agatha.Fat.Files.{
  no_file, lower, copy_file_entry_name, search_entries, find_file_in_sectors, free_loop,
  find_free_fid, file_from_entry, find_clunked, file_find, file_clunk,
}
use agatha.Fat.Init.{fat_init, blank}
use agatha.Fat.Chains.{Chain, cluster_after, file_size-Chain, file_size-never_ends}
use agatha.Fat.Reads.{file_read-reads}
use agatha.Fat.Slots.{Given, ShortNames, find_free_fid-Given}
use agatha.Fat.Opens.{OpenedOrReused, IfAnswered, file_find-OpenedOrReused}
use agatha.Fat.Clunk.{file_find-file_clunk}

abbrev byte_at : List ℕ → ℕ → ℕ
byte_at [] a = 0
byte_at (b ∷ bytes) zero = b
byte_at (b ∷ bytes) (suc a) = byte_at bytes a

abbrev image : List ℕ
image =
    0 ∷ 0 ∷ 0 ∷ 0 ∷ 0 ∷ 0 ∷ 0 ∷ 0 ∷ 0 ∷ 0 ∷ 0 ∷ 64 ∷ 0 ∷ 1 ∷ 1 ∷ 0 ∷ 1 ∷ 2 ∷ 0 ∷ 8 ∷ 0 ∷ 0 ∷ 1 ∷ 0
    ∷ 0 ∷ 0 ∷ 0 ∷ 0 ∷ 0 ∷ 0 ∷ 0 ∷ 0 ∷ 0 ∷ 0 ∷ 0 ∷ 0 ∷ 0 ∷ 0 ∷ 0 ∷ 0 ∷ 0 ∷ 0 ∷ 0 ∷ 0 ∷ 0 ∷ 0 ∷ 0 ∷ 0
    ∷ 0 ∷ 0 ∷ 0 ∷ 0 ∷ 0 ∷ 0 ∷ 0 ∷ 0 ∷ 0 ∷ 0 ∷ 0 ∷ 0 ∷ 0 ∷ 0 ∷ 0 ∷ 0 ∷ 248 ∷ 255 ∷ 255 ∷ 255 ∷ 3 ∷ 0
    ∷ 255 ∷ 255 ∷ 4 ∷ 0 ∷ 0 ∷ 0 ∷ 0 ∷ 0 ∷ 0 ∷ 0 ∷ 0 ∷ 0 ∷ 0 ∷ 0 ∷ 0 ∷ 0 ∷ 0 ∷ 0 ∷ 0 ∷ 0 ∷ 0 ∷ 0 ∷ 0
    ∷ 0 ∷ 0 ∷ 0 ∷ 0 ∷ 0 ∷ 0 ∷ 0 ∷ 0 ∷ 0 ∷ 0 ∷ 0 ∷ 0 ∷ 0 ∷ 0 ∷ 0 ∷ 0 ∷ 0 ∷ 0 ∷ 0 ∷ 0 ∷ 0 ∷ 0 ∷ 0 ∷ 0
    ∷ 0 ∷ 0 ∷ 0 ∷ 0 ∷ 0 ∷ 0 ∷ 0 ∷ 0 ∷ 0 ∷ 0 ∷ 0 ∷ 65 ∷ 66 ∷ 32 ∷ 32 ∷ 32 ∷ 32 ∷ 32 ∷ 32 ∷ 67 ∷ 32
    ∷ 32 ∷ 32 ∷ 0 ∷ 0 ∷ 0 ∷ 0 ∷ 0 ∷ 0 ∷ 0 ∷ 0 ∷ 0 ∷ 0 ∷ 0 ∷ 0 ∷ 0 ∷ 0 ∷ 2 ∷ 0 ∷ 70 ∷ 0 ∷ 0 ∷ 0 ∷ 0
    ∷ 0 ∷ 0 ∷ 0 ∷ 0 ∷ 0 ∷ 0 ∷ 0 ∷ 0 ∷ 0 ∷ 0 ∷ 0 ∷ 0 ∷ 0 ∷ 0 ∷ 0 ∷ 0 ∷ 0 ∷ 0 ∷ 0 ∷ 0 ∷ 0 ∷ 0 ∷ 0 ∷ 0
    ∷ 0 ∷ 0 ∷ 0 ∷ 0 ∷ 0 ∷ 0 ∷ 0 ∷ []

abbrev disk : Disk
disk blk n = some (λ i. byte_at image (blk * 64 + i))

abbrev map_option : {A B : Type 0} → (A → B) → Option A → Option B
map_option f none = none
map_option f (some x) = some (f x)

-- The file system as fat_init leaves it.
abbrev root : FatFile
root = record (no_file) { refs = 1; dsize = 64 }

abbrev fs : Fat
fs = record (blank 64 0 8) {
  bps = 64;
  spc = 1;
  spf = 1;
  nft = 1;
  nclusters = 5;
  nsectors = 8;
  reserved = 1;
  rde = 2;
  rootdir = 2;
  dataarea = 3;
  files = update (λ i. no_file) 0 root;
}

abbrev ab_c : FatFile
ab_c = record {
  refs = 1;
  name = 97 ∷ 98 ∷ 46 ∷ 99 ∷ [];
  attr = 3;
  size = 70;
  dsize = 128;
  start_cluster = 2;
  parent = some 0;
}

abbrev open_fs : Fat
open_fs = record (fs) { files = update fs.files 1 ab_c }

fat_init-fields :
    map_option {B = ℕ × ℕ × ℕ × ℕ}
      (λ f. (f.nclusters, f.dataarea, f.rootdir, f.bps))
      (fat_init disk 64 0 8)
    ≡ some (5, 3, 2, 64)
unfolding fat_init
fat_init-fields = refl

-- The place of the file and its size on the disk, as fat_file_find gives them.
file_find-ab_c :
    map_option {B = Option ℕ × ℕ × ℕ}
      (λ r. (r.0, (r.1.files 1).dsize, (r.1.files 1).start_cluster))
      (file_find 9 disk fs 0 ab_c.name)
    ≡ some (some 1, 128, 2)
unfolding file_find find_clunked find_file_in_sectors search_entries copy_file_entry_name lower
    strncmp file_from_entry find_free_fid free_loop file_size size_loop next_cluster table_info
file_find-ab_c = refl

Chain-ab_c : Chain disk fs 2 (2 ∷ 3 ∷ [])
unfolding next_cluster table_info
Chain-ab_c = (refl, omega arith, (refl, omega arith, refl))

file_size-Chain_example : file_size 9 disk fs 2 ≡ some 128
file_size-Chain_example =
    file_size-Chain (2 ∷ 3 ∷ []) 9 disk fs 2 Chain-ab_c (omega arith) (omega arith)

-- Cluster 4 is its own successor.
cluster_after-4 : (n : ℕ) → cluster_after disk fs n 4 ≢ 0
unfolding next_cluster table_info
cluster_after-4 zero = omega arith
cluster_after-4 (suc n) = cluster_after-4 n

file_size-never_ends_example : file_size 9 disk fs 4 ≡ none
file_size-never_ends_example = file_size-never_ends 9 disk fs 4 cluster_after-4

file_read-reads_example :
    file_read 9 disk fs 2 0 64 64 ≡ read_ok (record { off = 0; blk = 4; n_blks = 1 } ∷ [])
file_read-reads_example =
    file_read-reads (2 ∷ 3 ∷ []) 1 9 disk fs 2 0 1 64
      (λ blk n. (λ i. byte_at image (blk * 64 + i), refl)) Chain-ab_c
      (omega arith, omega arith, omega arith) (omega arith) (omega arith) (omega arith)

fs-ShortNames : ShortNames fs.files
fs-ShortNames j = ground arith

find_free_fid-Given_example : Given fs.files (find_free_fid fs).0 (find_free_fid fs).1.files
find_free_fid-Given_example = find_free_fid-Given fs fs-ShortNames

file_find-OpenedOrReused_example :
    IfAnswered (OpenedOrReused fs.files ab_c.name 0) (file_find 9 disk fs 0 ab_c.name)
file_find-OpenedOrReused_example = file_find-OpenedOrReused 9 disk fs 0 ab_c.name fs-ShortNames

same_name : strncmp ab_c.name ab_c.name 32 ≡ true
unfolding strncmp
same_name = refl

file_find-file_clunk_example :
    (file_find 9 disk (file_clunk open_fs 1) 0 ab_c.name ≡ some (some 1, file_clunk open_fs 1))
    × (((file_clunk open_fs 1).files 1).refs ≡ 0)
file_find-file_clunk_example =
    file_find-file_clunk 9 disk open_fs 1 0 ab_c.name (omega arith) (omega arith) (omega arith) refl
      same_name (λ j pos lt. absurd (omega arith))
