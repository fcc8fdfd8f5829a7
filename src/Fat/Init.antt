-- ===== src/Fat/Init.antt =====
-- fat_init of lib/fat/fat.c. A FAT16 file system is one whose boot sector has entries of the root directory.
use agatha.Prelude.{
  ℕ, ◌+◌, ◌-◌, ◌*◌, ◌/◌, ◌^◌, true, false, ◌==◌, if◌then◌else◌, Option, none, some, update,
}
use agatha.Fat.{Disk, Fat, fat16, fat32, w32, little16, little32, read_blocks}
use agatha.Fat.Files.{no_file}

-- What `memset` and the arguments make of the file system.
abbrev pub blank : (block_size p_start p_size : ℕ) → Fat
blank block_size p_start p_size = record {
  block_size = block_size;
  start = p_start;
  nblocks = p_size;
  type = fat16;
  bps = 0;
  spc = 0;
  spf = 0;
  nft = 0;
  nclusters = 0;
  nsectors = 0;
  reserved = 0;
  rde = 0;
  rootdir = 0;
  dataarea = 0;
  files = λ i. no_file;
}

-- The fields that both types have, of a boot sector `bs`.
abbrev pub common_fields : (ℕ → ℕ) → Fat → Fat
common_fields bs fat = record (fat) {
  bps = little16 bs 11;
  spc = bs 13;
  nsectors = if little16 bs 19 == 0 then little32 bs 32 else little16 bs 19;
  nft = bs 16;
  reserved = little16 bs 14;
  rde = little16 bs 17;
}

abbrev pub fat16_fields : (ℕ → ℕ) → Fat → Fat
fat16_fields bs fat = record (fat) {
  type = fat16;
  spf = little16 bs 22;
  rootdir = fat.reserved + fat.nft * little16 bs 22;
  dataarea = fat.reserved + fat.nft * little16 bs 22 + (fat.rde * 32 + (fat.bps - 1)) / fat.bps;
  files = update fat.files 0 (record (no_file) { dsize = fat.rde * 32 });
}

abbrev pub fat32_fields : (ℕ → ℕ) → Fat → Fat
fat32_fields bs fat = record (fat) {
  type = fat32;
  spf = little32 bs 36;
  dataarea = w32 (fat.reserved + little32 bs 36 * fat.nft);
  files =
      update fat.files 0
        (record (no_file) { dsize = fat.spc * fat.bps; start_cluster = little32 bs 44 });
}

-- The number of clusters, and the root directory as an open file.
abbrev pub last_fields : Fat → Fat
last_fields fat = record (fat) {
  nclusters = w32 (fat.nsectors + (2 ^ 32 - fat.dataarea)) / fat.spc;
  files = update fat.files 0 (record (fat.files 0) { refs = 1; size = 0 });
}

-- `fat_init`, of a boot sector whose sectors have at least one byte.
unfoldable pub fat_init : Disk → (block_size p_start p_size : ℕ) → Option Fat
fat_init disk block_size p_start p_size =
    let fat = blank block_size p_start p_size in
    elim (read_blocks disk fat 0 0 block_size) [
      | none ↦ none
      | some bs ↦ elim ((common_fields bs fat).rde == 0) [
        | true ↦ some (last_fields (fat32_fields bs (common_fields bs fat)))
        | false ↦ some (last_fields (fat16_fields bs (common_fields bs fat)))
      ]
    ]
