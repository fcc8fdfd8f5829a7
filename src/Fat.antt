-- ===== src/Fat.antt =====
-- FAT file systems: lib/fat/fat.c. A disk gives the bytes of a number of blocks, or nothing where the
-- block server refuses them or the memory for them is not to be had. Loops over the clusters of a file
-- run on fuel.
pub mod Files
pub mod Chains
pub mod Reads
pub mod Slots
pub mod Opens
pub mod Clunk
pub mod Init
pub mod Tests
use agatha.Prelude.{
  ℕ, zero, suc, ◌+◌, ◌-◌, ◌*◌, ◌/◌, ◌%◌, ◌^◌, bit_and, Bool, true, false, ◌||◌, ltb, leb, ◌==◌,
  if◌then◌else◌, Option, none, some, List, [], ◌∷◌,
}

-- The answer to a read of `n` blocks from `blk` on.
abbrev pub Disk : Type 0
Disk = (blk n : ℕ) → Option (ℕ → ℕ)

-- `fat_t`
pub data FatType : Type 0 where
  fat16 fat32 : FatType

-- `struct fat_file`, with the place of its parent among the files.
pub record FatFile : Type 0 where
  pub refs : ℕ
  pub name : List ℕ
  pub attr : ℕ
  pub size : ℕ
  pub dsize : ℕ
  pub start_cluster : ℕ
  pub parent : Option ℕ

-- `struct fat`
pub record Fat : Type 0 where
  pub block_size : ℕ
  pub start : ℕ
  pub nblocks : ℕ
  pub type : FatType
  pub bps : ℕ
  pub spc : ℕ
  pub spf : ℕ
  pub nft : ℕ
  pub nclusters : ℕ
  pub nsectors : ℕ
  pub reserved : ℕ
  pub rde : ℕ
  pub rootdir : ℕ
  pub dataarea : ℕ
  pub files : ℕ → FatFile

-- A number of 32 bits.
abbrev pub w32 : ℕ → ℕ
w32 n = n % 2 ^ 32

-- `intcopylittle16` and `intcopylittle32`
abbrev pub little16 : (ℕ → ℕ) → ℕ → ℕ
little16 bytes a = bytes a + bytes (a + 1) * 2 ^ 8

abbrev pub little32 : (ℕ → ℕ) → ℕ → ℕ
little32 bytes a = bytes a + bytes (a + 1) * 2 ^ 8 + bytes (a + 2) * 2 ^ 16 + bytes (a + 3) * 2 ^ 24

-- A read of blocks: where it goes in the frame, the first block and how many.
pub record Read : Type 0 where
  pub off : ℕ
  pub blk : ℕ
  pub n_blks : ℕ

-- The request of `fat_read_blocks`.
abbrev pub read_request : Fat → (off from len : ℕ) → Read
read_request fat off from len = record {
  off = off;
  blk = w32 (fat.start + from / fat.block_size);
  n_blks = len / fat.block_size;
}

-- `fat_read_blocks`
abbrev pub read_blocks : Disk → Fat → (off from len : ℕ) → Option (ℕ → ℕ)
read_blocks disk fat off from len =
    disk (read_request fat off from len).blk (read_request fat off from len).n_blks

-- The size of an entry of the table.
abbrev pub entry_size : FatType → ℕ
entry_size fat16 = 2
entry_size fat32 = 4

abbrev pub entry_of : FatType → (ℕ → ℕ) → ℕ → ℕ
entry_of fat16 bytes a = little16 bytes a
entry_of fat32 bytes a = little32 bytes a

-- `fat_table_info`
unfoldable pub table_info : Disk → Fat → (cluster : ℕ) → ℕ
table_info disk fat cluster =
    let off = w32 (cluster * entry_size fat.type) in
    elim (read_blocks disk fat 0 (w32 ((fat.reserved + off / fat.bps) * fat.bps)) fat.bps) [
      | none ↦ 0
      | some bytes ↦ entry_of fat.type bytes (off % fat.bps)
    ]

-- `v`, without the bits that are not used, and 0 for the marks of an end.
abbrev pub link_of : FatType → (v : ℕ) → ℕ
link_of fat16 v = if leb 0xfff8 (bit_and v 0xffff) then 0 else bit_and v 0xffff
link_of fat32 v = if leb 0x0ffffff8 (bit_and v 0x0fffffff) then 0 else bit_and v 0x0fffffff

-- `fat_next_cluster`
unfoldable pub next_cluster : Disk → Fat → (prev : ℕ) → ℕ
next_cluster disk fat prev = link_of fat.type (table_info disk fat prev)

-- `cluster_to_sector`
abbrev pub cluster_to_sector : Fat → (cluster : ℕ) → ℕ
cluster_to_sector fat cluster = w32 (fat.dataarea + (cluster + (2 ^ 32 - 2)) * fat.spc)

-- The bytes of a cluster.
abbrev pub cluster_bytes : Fat → ℕ
cluster_bytes fat = w32 (fat.spc * fat.bps)

-- The loop of `fat_file_size`.
unfoldable pub size_loop : (fuel : ℕ) → Disk → Fat → (cluster s : ℕ) → Option ℕ
size_loop zero disk fat cluster s = none
size_loop (suc fuel) disk fat cluster s = elim (cluster == 0) [
  | true ↦ some s
  | false ↦ size_loop fuel disk fat (next_cluster disk fat cluster) (w32 (s + cluster_bytes fat))
]

-- `fat_file_size`
unfoldable pub file_size : (fuel : ℕ) → Disk → Fat → (start_cluster : ℕ) → Option ℕ
file_size fuel disk fat c = if c == 0 then some (cluster_bytes fat) else size_loop fuel disk fat c 0

-- What a read of a file comes to, with the requests that it makes.
pub data ReadEnd : Type 0 where
  read_ok : (reads : List Read) → ReadEnd
  read_err : (reads : List Read) → ReadEnd
  read_starved : ReadEnd

abbrev pub after_read : Read → ReadEnd → ReadEnd
after_read r (read_ok reads) = read_ok (r ∷ reads)
after_read r (read_err reads) = read_err (r ∷ reads)
after_read r read_starved = read_starved

-- The request for a cluster of a file.
abbrev pub cluster_read : Fat → (off cluster : ℕ) → Read
cluster_read fat off cluster =
    read_request fat off (w32 (cluster_to_sector fat cluster * fat.bps)) (cluster_bytes fat)

-- The loop of `fat_file_read`.
unfoldable pub read_loop :
    (fuel : ℕ) → Disk → Fat → (cluster frame_offset file_offset tlen len : ℕ) → ReadEnd
read_loop zero disk fat cluster frame_offset file_offset tlen len = read_starved
read_loop (suc fuel) disk fat cluster frame_offset file_offset tlen len =
    elim (cluster == 0 || leb len tlen) [
      | true ↦ read_ok []
      | false ↦ elim (ltb 0 file_offset) [
        | true ↦
            read_loop fuel disk fat (next_cluster disk fat cluster) frame_offset
              (file_offset - cluster_bytes fat) tlen len
        | false ↦
            elim (disk (cluster_read fat (w32 (frame_offset + tlen)) cluster).blk
              (cluster_read fat (w32 (frame_offset + tlen)) cluster).n_blks) [
                | none ↦ read_err (cluster_read fat (w32 (frame_offset + tlen)) cluster ∷ [])
                | some bytes ↦ after_read (cluster_read fat (w32 (frame_offset + tlen)) cluster) (
                    read_loop fuel disk fat (next_cluster disk fat cluster) frame_offset 0
                      (w32 (tlen + cluster_bytes fat)) len)
              ]
      ]
    ]

-- `fat_file_read`
unfoldable pub file_read :
    (fuel : ℕ) → Disk → Fat → (start_cluster frame_offset file_offset len : ℕ) → ReadEnd
file_read fuel disk fat c frame_offset file_offset len =
    if file_offset % cluster_bytes fat == 0
    then read_loop fuel disk fat c frame_offset file_offset 0 len
    else read_err []
