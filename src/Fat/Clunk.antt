-- ===== src/Fat/Clunk.antt =====
-- A file that fat_file_find of lib/fat/fat.c finds again after fat_file_clunk.
use agatha.Prelude.{
  ℕ, zero, suc, ◌+◌, ◌<◌, ◌≤◌, ◌≡◌, ◌≢◌, inl, inr, refl, sym, ap, subst, arith, Bool-cases, ==_iff,
  true, false, ◌&&◌, ◌==◌, some, List, update, update-same, update-other,
}
use agatha.Text.{strncmp}
use agatha.Fat.{Disk, Fat, FatFile}
use agatha.Fat.Files.{fids_max, set_file, in_directory, find_clunked, file_find, file_clunk}

-- The first loop passes the files that are open.
find_clunked-first :
    (n k i : ℕ) (files : ℕ → FatFile) (parent : ℕ) (name : List ℕ)
    → k ≤ i
    → i < k + n
    → ((j : ℕ) → k ≤ j → j < i → (files j).refs ≢ 0)
    → (in_directory (files i) parent && ((files i).refs == 0 && strncmp (files i).name name 32))
      ≡ true
    → find_clunked n k files parent name ≡ some i
unfolding find_clunked
find_clunked-first zero k i files parent name le lt others is = absurd (omega arith)
find_clunked-first (suc n) k i files parent name le lt others is = elim (Bool-cases (k == i)) [
  | inl e ↦ rw ((==_iff k i).0 e) (rw (is, find_clunked) refl)
  | inr e ↦
      let apart : k ≢ i = ground arith in
      let refs : (files k).refs ≢ 0 = others k (omega arith) (omega arith) in
      let skip : (in_directory (files k) parent
            && ((files k).refs == 0 && strncmp (files k).name name 32))
          ≡ false =
        ground arith in
      rw (skip, find_clunked)
        (find_clunked-first n (k + 1) i files parent name (omega arith) (omega arith)
          (λ j le' lt'. others j (omega arith) lt') is)
]

clunked_files :
    (fat : Fat) (i : ℕ)
    → (fat.files i).refs ≢ 0
    → file_clunk fat i ≡ set_file fat i (record (fat.files i) { refs = 0 })
unfolding file_clunk
clunked_files fat i h =
    let open_file : ((fat.files i).refs == 0) ≡ false = ground arith in
    rw (open_file, file_clunk) refl

-- After fat_file_clunk of an open file, where all files before it are open, fat_file_find of its name
-- in its directory gives its place and changes nothing, so that the file is still marked as clunked.
pub file_find-file_clunk :
    (fuel : ℕ) (disk : Disk) (fat : Fat) (i parent : ℕ) (name : List ℕ)
    → 0 < i
    → i < fids_max
    → (fat.files i).refs ≢ 0
    → (fat.files i).parent ≡ some parent
    → strncmp (fat.files i).name name 32 ≡ true
    → ((j : ℕ) → 0 < j → j < i → (fat.files j).refs ≢ 0)
    → (file_find fuel disk (file_clunk fat i) parent name ≡ some (some i, file_clunk fat i))
      × (((file_clunk fat i).files i).refs ≡ 0)
unfolding file_find
file_find-file_clunk fuel disk fat i parent name pos lt refs under same others =
    rw (clunked_files fat i refs) (
      rw (find_clunked-first 31 1 i files' parent name pos lt others' is, file_find) refl,
      ap (λ f. f.refs) here,
    )
  where
    files' : ℕ → FatFile
    files' = update fat.files i (record (fat.files i) { refs = 0 })

    here : files' i ≡ record (fat.files i) { refs = 0 }
    here = update-same fat.files i (record (fat.files i) { refs = 0 })

    others' : (j : ℕ) → 1 ≤ j → j < i → (files' j).refs ≢ 0
    others' j le below =
        subst (λ f. f.refs ≢ 0)
          (sym (update-other fat.files i j (record (fat.files i) { refs = 0 }) (omega arith)))
          (others j le below)

    is :
        (in_directory (files' i) parent
          && ((files' i).refs == 0 && strncmp (files' i).name name 32))
        ≡ true
    is = rw here (rw (under, in_directory) (rw same (rw ((==_iff parent parent).1 refl) refl)))
