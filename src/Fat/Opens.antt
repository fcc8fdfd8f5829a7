-- ===== src/Fat/Opens.antt =====
-- What fat_file_find and fat_file_clunk of lib/fat/fat.c make of the files that are open.
use agatha.Prelude.{
  ℕ, zero, suc, ◌+◌, ◌*◌, ◌^◌, ◌<◌, ◌≡◌, ◌⊎◌, inl, inr, refl, sym, ap, ◌∙◌, fun_ext, arith,
  Bool-cases, ==_iff, true-ne-false, true, false, ◌&&◌, ◌==◌, bit_and, Option, none, some, List,
  update,
}
use agatha.Text.{strncmp, copied}
use agatha.Fat.{Disk, Fat, FatFile, cluster_bytes, file_size}
use agatha.Fat.Files.{
  DirEntry, Search, found, absent, failed, fids_max, no_file, set_file, find_free_fid, file_of,
  file_from_entry, in_directory, find_clunked, search_directory, file_find,
}
use agatha.Fat.Slots.{Free, ShortNames, find_free_fid-Given}

-- A free place has the file of that name in the directory, open, and the others are as before; or there
-- is no file, and all are.
abbrev pub Opened :
    (ℕ → FatFile) → (name : List ℕ) → (parent : ℕ) → Option ℕ → (ℕ → FatFile) → Type 0
Opened files name parent none files' = files' ≡ files
Opened files name parent (some i) files' =
    (0 < i)
    × (i < fids_max)
    × Free (files i)
    × (f : FatFile) × (files' ≡ update files i f)
    × (f.refs ≡ 1)
    × (f.name ≡ copied 31 name)
    × (f.parent ≡ some parent)

-- Of an answer, where there is one.
abbrev pub IfAnswered : (Option ℕ → (ℕ → FatFile) → Type 0) → Option (Option ℕ × Fat) → Type 0
IfAnswered P none = Unit
IfAnswered P (some r) = P r.0 r.1.files

update_twice :
    (files : ℕ → FatFile) (i : ℕ) (f g : FatFile) → update (update files i f) i g ≡ update files i g
update_twice files i f g = fun_ext λ q. ground arith

Opened-file_of :
    (files files' : ℕ → FatFile) (e : DirEntry) (name : List ℕ) (parent size dsize i : ℕ)
    → 0 < i
    → i < fids_max
    → Free (files i)
    → files' ≡ update files i no_file
    → Opened files name parent (some i) (update files' i (file_of e name parent size dsize))
Opened-file_of files files' e name parent size dsize i pos lt free same = (
  pos,
  lt,
  free,
  file_of e name parent size dsize,
  ap (λ g. update g i (file_of e name parent size dsize)) same
      ∙ update_twice files i no_file (file_of e name parent size dsize),
  refl,
  refl,
  refl,
)

IfAnswered-each :
    (P : Option ℕ → (ℕ → FatFile) → Type 0) (i : ℕ) (g : ℕ → Fat) (o : Option ℕ)
    → ((n : ℕ) → P (some i) (g n).files)
    → IfAnswered P (elim o [ none ↦ none | some n ↦ some (some i, g n) ])
IfAnswered-each P i g none h = tt
IfAnswered-each P i g (some n) h = h n

file_from_entry-Opened :
    (fuel : ℕ) (disk : Disk) (fat : Fat) (e : DirEntry) (name : List ℕ) (parent : ℕ)
    → ShortNames fat.files
    → IfAnswered (Opened fat.files name parent) (file_from_entry fuel disk fat e name parent)
unfolding file_from_entry
file_from_entry-Opened fuel disk fat e name parent h = elim (find_free_fid-Given fat h) [
  | inl (nothing, same, full) ↦
      let b : ((find_free_fid fat).0 == 0) ≡ true = ground arith in rw (b, file_from_entry) same
  | inr (pos, lt, free, same) ↦
      let b : ((find_free_fid fat).0 == 0) ≡ false = ground arith in
      elim (Bool-cases (bit_and e.attr 0x10 == 0)) [
        | inr d ↦
            rw (b, file_from_entry)
              (rw d (
                Opened-file_of fat.files (find_free_fid fat).1.files e name parent 0
                  (cluster_bytes fat) (find_free_fid fat).0 pos lt free same))
        | inl d ↦
            rw (b, file_from_entry)
              (rw d (
                IfAnswered-each (Opened fat.files name parent) (find_free_fid fat).0
                  (λ n.
                    set_file (find_free_fid fat).1 (find_free_fid fat).0
                      (file_of e name parent e.size n))
                  (file_size fuel disk fat (e.cluster_high * 2 ^ 16 + e.cluster_low))
                  (λ n.
                    Opened-file_of fat.files (find_free_fid fat).1.files e name parent e.size n
                      (find_free_fid fat).0 pos lt free same)))
      ]
]

-- A clunked file of that name in the directory, which stays as it is.
abbrev pub Reused :
    (ℕ → FatFile) → (name : List ℕ) → (parent : ℕ) → Option ℕ → (ℕ → FatFile) → Type 0
Reused files name parent none files' = ⊥
Reused files name parent (some i) files' =
    (0 < i)
    × (i < fids_max)
    × (files' ≡ files)
    × ((files i).refs ≡ 0)
    × ((files i).parent ≡ some parent)
    × (strncmp (files i).name name 32 ≡ true)

in_directory-parent : (f : FatFile) (p : ℕ) → in_directory f p ≡ true → f.parent ≡ some p
in_directory-parent f p h = go f.parent h
  where
    go : (o : Option ℕ) → elim o [ none ↦ false | some q ↦ q == p ] ≡ true → o ≡ some p
    go none e = absurd (true-ne-false (sym e))
    go (some q) e = ap some ((==_iff q p).0 e)

-- The place that the first loop finds.
abbrev IfFound : (ℕ → Type 0) → Option ℕ → Type 0
IfFound P none = Unit
IfFound P (some i) = P i

find_clunked-Reused :
    (n i : ℕ) (files : ℕ → FatFile) (parent : ℕ) (name : List ℕ)
    → 0 < i
    → i + n ≡ fids_max
    → IfFound (λ j. Reused files name parent (some j) files) (find_clunked n i files parent name)
unfolding find_clunked
find_clunked-Reused zero i files parent name pos e = tt
find_clunked-Reused (suc n) i files parent name pos e =
    let rest = find_clunked-Reused n (i + 1) files parent name (omega arith) (omega arith) in
    elim (Bool-cases (in_directory (files i) parent)) [
      | inr d ↦ rw (d, find_clunked) rest
      | inl d ↦ elim (Bool-cases ((files i).refs == 0 && strncmp (files i).name name 32)) [
        | inr c ↦ rw (d, find_clunked) (rw c rest)
        | inl c ↦
            let refs : (files i).refs ≡ 0 = ground arith in
            let same : strncmp (files i).name name 32 ≡ true = ground arith in
            rw (d, find_clunked)
              (rw c (pos, omega arith, refl, refs, in_directory-parent (files i) parent d, same))
      ]
    ]

-- What a search of the files and of a directory comes to.
abbrev pub OpenedOrReused :
    (ℕ → FatFile) → (name : List ℕ) → (parent : ℕ) → Option ℕ → (ℕ → FatFile) → Type 0
OpenedOrReused files name parent o files' =
    Opened files name parent o files' ⊎ Reused files name parent o files'

module _ (fuel : ℕ) (disk : Disk) (fat : Fat) (parent : ℕ) (name : List ℕ) where
  searched :
      (s : Option Search)
      → ShortNames fat.files
      → IfAnswered (OpenedOrReused fat.files name parent) (elim s [
        | none ↦ none
        | some t ↦ elim t [
          | found e ↦ file_from_entry fuel disk fat e name parent
          | absent ↦ some (none, fat)
          | failed ↦ some (none, fat)
        ]
      ])
  searched none h = tt
  searched (some absent) h = inl refl
  searched (some failed) h = inl refl
  searched (some (found e)) h =
      weaken (file_from_entry fuel disk fat e name parent)
        (file_from_entry-Opened fuel disk fat e name parent h)
    where
      weaken :
          (o : Option (Option ℕ × Fat))
          → IfAnswered (Opened fat.files name parent) o
          → IfAnswered (OpenedOrReused fat.files name parent) o
      weaken none k = tt
      weaken (some r) k = inl k

  first_loop :
      (c : Option ℕ)
      → ShortNames fat.files
      → IfFound (λ j. Reused fat.files name parent (some j) fat.files) c
      → IfAnswered (OpenedOrReused fat.files name parent) (elim c [
        | some i ↦ some (some i, fat)
        | none ↦ elim (search_directory fuel disk fat parent name) [
          | none ↦ none
          | some s ↦ elim s [
            | found e ↦ file_from_entry fuel disk fat e name parent
            | absent ↦ some (none, fat)
            | failed ↦ some (none, fat)
          ]
        ]
      ])
  first_loop (some i) h k = inr k
  first_loop none h k = searched (search_directory fuel disk fat parent name) h

  -- With names that fit into their 32 bytes, an answer of fat_file_find is one of these: no file, and
  -- all files as they were; a place among 1 to 31 that was free, which has an open file of the name in
  -- the directory now, with all others as they were; or a file of the name in the directory that was
  -- clunked, with all as they were, itself included.
  pub file_find-OpenedOrReused :
      ShortNames fat.files
      → IfAnswered (OpenedOrReused fat.files name parent) (file_find fuel disk fat parent name)
  unfolding file_find
  file_find-OpenedOrReused h =
      first_loop (find_clunked 31 1 fat.files parent name) h
        (find_clunked-Reused 31 1 fat.files parent name (omega arith) (omega arith))
