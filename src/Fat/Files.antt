-- ===== src/Fat/Files.antt =====
-- The entries of directories and the files that are open, of lib/fat/fat.c: fat_find_free_fid,
-- fat_file_from_entry, fat_file_find, fat_file_clunk, and fat_init.
use agatha.Prelude.{
  ℕ, zero, suc, ◌+◌, ◌-◌, ◌*◌, ◌/◌, ◌^◌, bit_and, Bool, true, false, ◌&&◌, leb, ◌==◌, if◌then◌else◌,
  Option, none, some, List, [], ◌∷◌, ◌++◌, take, update,
}
use agatha.Text.{char_at, strncmp, copied}
use agatha.Fat.{
  Disk, Fat, FatFile, w32, little16, little32, read_blocks, cluster_bytes, cluster_to_sector,
  next_cluster, file_size,
}

-- `struct fat_dir_entry`, as far as it is used.
pub record DirEntry : Type 0 where
  pub name : List ℕ
  pub ext : List ℕ
  pub attr : ℕ
  pub cluster_high : ℕ
  pub cluster_low : ℕ
  pub size : ℕ

abbrev pub bytes_at : (ℕ → ℕ) → ℕ → (n : ℕ) → List ℕ
bytes_at bytes a zero = []
bytes_at bytes a (suc n) = bytes a ∷ bytes_at bytes (a + 1) n

-- The entry at an offset.
abbrev pub entry_at : (ℕ → ℕ) → ℕ → DirEntry
entry_at bytes a = record {
  name = bytes_at bytes a 8;
  ext = bytes_at bytes (a + 8) 3;
  attr = bytes (a + 11);
  cluster_high = little16 bytes (a + 20);
  cluster_low = little16 bytes (a + 26);
  size = little32 bytes (a + 28);
}

-- The loops over `name` and `ext`: up to a space, with capital letters made small.
unfoldable pub lower : List ℕ → List ℕ
lower [] = []
lower (c ∷ s) = elim (c == 32) [
  | true ↦ []
  | false ↦ (if leb 65 c && leb c 90 then c + 32 else c) ∷ lower s
]

-- What `fat_copy_file_entry_name` comes to: a name, ERR, -3 and -2.
pub data EntryName : Type 0 where
  named : (name : List ℕ) → EntryName
  no_entry : EntryName
  deleted : EntryName
  long_name : EntryName

-- `fat_copy_file_entry_name`
unfoldable pub copy_file_entry_name : DirEntry → EntryName
copy_file_entry_name e =
    if char_at e.name == 0
    then no_entry
    else if char_at e.name == 0xe5
    then deleted
    else if bit_and e.attr 0x0f == 0x0f
    then long_name
    else named (lower e.name ++ (if char_at e.ext == 32 then [] else 46 ∷ lower e.ext))

-- What a search through entries comes to: the entry, 0 and -1.
pub data Search : Type 0 where
  found : (e : DirEntry) → Search
  absent : Search
  failed : Search

-- The loop of `fat_find_file_in_sectors` over `n` more entries from `a` on.
unfoldable pub search_entries : (n : ℕ) → (ℕ → ℕ) → (a : ℕ) → (name : List ℕ) → Search
search_entries zero bytes a name = absent
search_entries (suc n) bytes a name =
    let rest = search_entries n bytes (a + 32) name in
    elim (copy_file_entry_name (entry_at bytes a)) [
      | deleted ↦ rest
      | long_name ↦ rest
      | no_entry ↦ failed
      | named s ↦ if strncmp s name 32 then found (entry_at bytes a) else rest
    ]

-- `fat_find_file_in_sectors`
unfoldable pub find_file_in_sectors : Disk → Fat → (sector nsectors : ℕ) → (name : List ℕ) → Search
find_file_in_sectors disk fat sector nsectors name =
    elim (read_blocks disk fat 0 (w32 (sector * fat.bps)) (w32 (nsectors * fat.bps))) [
      | none ↦ failed
      | some bytes ↦ search_entries (w32 (nsectors * fat.bps) / 32) bytes 0 name
    ]

-- The loop of `fat_file_find` over the clusters of a directory; `none` without fuel.
unfoldable pub search_clusters :
    (fuel : ℕ) → Disk → Fat → (cluster : ℕ) → (name : List ℕ) → Option Search
search_clusters zero disk fat cluster name = none
search_clusters (suc fuel) disk fat cluster name = elim (cluster == 0) [
  | true ↦ some absent
  | false ↦ elim (find_file_in_sectors disk fat (cluster_to_sector fat cluster) fat.spc name) [
    | absent ↦ search_clusters fuel disk fat (next_cluster disk fat cluster) name
    | failed ↦ some failed
    | found e ↦ some (found e)
  ]
]

-- The part of `fat_file_find` that reads the directory `parent`.
abbrev pub search_directory :
    (fuel : ℕ) → Disk → Fat → (parent : ℕ) → (name : List ℕ) → Option Search
search_directory fuel disk fat parent name =
    if (fat.files parent).start_cluster == 0
    then some (find_file_in_sectors disk fat fat.rootdir fat.spc name)
    else search_clusters fuel disk fat (fat.files parent).start_cluster name

-- `FIDSMAX`
abbrev pub fids_max : ℕ
fids_max = 32

-- What `memset` with 0 leaves.
abbrev pub no_file : FatFile
no_file = record {
  refs = 0;
  name = [];
  attr = 0;
  size = 0;
  dsize = 0;
  start_cluster = 0;
  parent = none;
}

abbrev pub set_file : Fat → (i : ℕ) → FatFile → Fat
set_file fat i f = record (fat) { files = update fat.files i f }

-- `fat_file_clunk`
unfoldable pub file_clunk : Fat → (i : ℕ) → Fat
file_clunk fat i =
    if (fat.files i).refs == 0
    then set_file fat i no_file
    else set_file fat i (record (fat.files i) { refs = 0 })

-- The loop of `fat_find_free_fid` over `n` more files from `i` on, with the end that it writes to each
-- name: `b` and the files.
unfoldable pub free_loop : (n i b : ℕ) → (ℕ → FatFile) → ℕ × (ℕ → FatFile)
free_loop zero i b files = (b, files)
free_loop (suc n) i b files =
    let f = record (files i) { name = take 31 (files i).name } in
    elim (char_at f.name == 0) [
      | true ↦ (i, update files i f)
      | false ↦ free_loop n (i + 1) (if b == 0 && f.refs == 0 then i else b) (update files i f)
    ]

-- `fat_find_free_fid`
unfoldable pub find_free_fid : Fat → ℕ × Fat
find_free_fid fat =
    let r = free_loop (fids_max - 1) 1 0 fat.files in
    if r.0 == 0
    then (0, record (fat) { files = r.1 })
    else (r.0, record (fat) { files = update r.1 r.0 no_file })

-- FILE_ATTR_rd, FILE_ATTR_wr and FILE_ATTR_dir as `fat_file_from_entry` sets them.
abbrev pub file_attr : (attr : ℕ) → ℕ
file_attr attr =
    (if bit_and attr 0x01 == 0 then 3 else 1) + (if bit_and attr 0x10 == 0 then 0 else 4)

-- The file of an entry, with the `dsize` that is computed for it. Its name is what `strlcpy` copies with
-- a size of 32.
abbrev pub file_of : DirEntry → (name : List ℕ) → (parent size dsize : ℕ) → FatFile
file_of e name parent size dsize = record {
  refs = 1;
  name = copied 31 name;
  attr = file_attr e.attr;
  size = size;
  dsize = dsize;
  start_cluster = e.cluster_high * 2 ^ 16 + e.cluster_low;
  parent = some parent;
}

-- `fat_file_from_entry`: the place of the file, or `none` for ERR, and what is then; `none` without
-- fuel for the loop of `fat_file_size`.
unfoldable pub file_from_entry :
    (fuel : ℕ) → Disk → Fat → DirEntry → (name : List ℕ) → (parent : ℕ) → Option (Option ℕ × Fat)
file_from_entry fuel disk fat e name parent =
    let r = find_free_fid fat in
    elim (r.0 == 0) [
      | true ↦ some (none, r.1)
      | false ↦ elim (bit_and e.attr 0x10 == 0) [
        | false ↦ some (some r.0, set_file r.1 r.0 (file_of e name parent 0 (cluster_bytes fat)))
        | true ↦ elim (file_size fuel disk fat (e.cluster_high * 2 ^ 16 + e.cluster_low)) [
          | none ↦ none
          | some n ↦ some (some r.0, set_file r.1 r.0 (file_of e name parent e.size n))
        ]
      ]
    ]

-- `fat->files[i].parent != parent` is false.
abbrev pub in_directory : FatFile → (parent : ℕ) → Bool
in_directory f parent = elim f.parent [ none ↦ false | some p ↦ p == parent ]

-- The first loop of `fat_file_find`, over `n` more files from `i` on.
unfoldable pub find_clunked : (n i : ℕ) → (ℕ → FatFile) → (parent : ℕ) → (name : List ℕ) → Option ℕ
find_clunked zero i files parent name = none
find_clunked (suc n) i files parent name =
    let rest = find_clunked n (i + 1) files parent name in
    if in_directory (files i) parent && ((files i).refs == 0 && strncmp (files i).name name 32)
    then some i
    else rest

-- `fat_file_find`
unfoldable pub file_find :
    (fuel : ℕ) → Disk → Fat → (parent : ℕ) → (name : List ℕ) → Option (Option ℕ × Fat)
file_find fuel disk fat parent name = elim (find_clunked (fids_max - 1) 1 fat.files parent name) [
  | some i ↦ some (some i, fat)
  | none ↦ elim (search_directory fuel disk fat parent name) [
    | none ↦ none
    | some s ↦ elim s [
      | found e ↦ file_from_entry fuel disk fat e name parent
      | absent ↦ some (none, fat)
      | failed ↦ some (none, fat)
    ]
  ]
]
