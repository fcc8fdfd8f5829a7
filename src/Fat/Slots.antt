-- ===== src/Fat/Slots.antt =====
-- Which places fat_find_free_fid of lib/fat/fat.c gives away.
use agatha.Prelude.{
  ℕ, zero, suc, ◌+◌, ◌<◌, ◌≤◌, ◌≡◌, ◌≢◌, ◌⊎◌, inl, inr, refl, sym, ap, ◌∙◌, subst, fun_ext, arith,
  Bool-cases, ==_iff, true, false, ◌&&◌, ◌==◌, if◌then◌else◌, List, [], ◌∷◌, length, take, update,
}
use agatha.Text.{char_at}
use agatha.Fat.{Fat, FatFile}
use agatha.Fat.Files.{fids_max, no_file, free_loop, find_free_fid}

-- A place that is not in use: never taken, or clunked.
abbrev pub Free : FatFile → Type 0
Free f = (char_at f.name ≡ 0) ⊎ (f.refs ≡ 0)

-- The names fit into their 32 bytes with a 0 at the end.
abbrev pub ShortNames : (ℕ → FatFile) → Type 0
ShortNames files = (j : ℕ) → length (files j).name ≤ 31

take_short : {A : Type 0} (n : ℕ) (s : List A) → length s ≤ n → take n s ≡ s
take_short zero [] h = refl
take_short zero (c ∷ s) h = absurd (omega arith)
take_short (suc n) [] h = refl
take_short (suc n) (c ∷ s) h = ap (λ t. c ∷ t) (take_short n s (omega arith))

update_self : (files : ℕ → FatFile) (i : ℕ) → update files i (files i) ≡ files
update_self files i = fun_ext λ q. go q (Bool-cases (q == i))
  where
    go : (q : ℕ) → ((q == i) ≡ true) ⊎ ((q == i) ≡ false) → update files i (files i) q ≡ files q
    go q (inl e) = rw e (ap files (sym ((==_iff q i).0 e)))
    go q (inr e) = rw e refl

-- The choice of the loop at a file.
abbrev better : (i b : ℕ) → FatFile → ℕ
better i b f = if b == 0 && f.refs == 0 then i else b

-- A round of the loop, where the end that it writes to the name changes nothing.
abbrev round : (n i b : ℕ) → (f : FatFile) → (ℕ → FatFile) → ℕ × (ℕ → FatFile)
round n i b f files = elim (char_at f.name == 0) [
  | true ↦ (i, files)
  | false ↦ free_loop n (i + 1) (better i b f) files
]

free_loop-round :
    (n i b : ℕ) (files : ℕ → FatFile)
    → ShortNames files
    → free_loop (suc n) i b files ≡ round n i b (files i) files
unfolding free_loop
free_loop-round n i b files h =
    ap
      (λ (s : List ℕ).
        round n i b (record (files i) { name = s })
          (update files i (record (files i) { name = s })))
      (take_short 31 (files i).name (h i))
    ∙ ap (round n i b (files i)) (update_self files i)

better-Free :
    (i b : ℕ) (files : ℕ → FatFile)
    → (b ≡ 0) ⊎ Free (files b)
    → (better i b (files i) ≡ 0) ⊎ Free (files (better i b (files i)))
better-Free i b files free = elim (Bool-cases (b == 0 && (files i).refs == 0)) [
  | inl e ↦ let clunked : (files i).refs ≡ 0 = ground arith in rw (e, better) (inr (inr clunked))
  | inr e ↦ rw (e, better) free
]

free_loop-Free :
    (n i b : ℕ) (files : ℕ → FatFile)
    → ShortNames files
    → (b ≡ 0) ⊎ Free (files b)
    → ((free_loop n i b files).0 ≡ 0) ⊎ Free (files (free_loop n i b files).0)
unfolding free_loop
free_loop-Free zero i b files h free = free
free_loop-Free (suc n) i b files h free =
    rw (free_loop-round n i b files h) (elim (Bool-cases (char_at (files i).name == 0)) [
      | inl e ↦ rw (e, round) (inr (inl ((==_iff (char_at (files i).name) 0).0 e)))
      | inr e ↦
          rw (e, round)
            (free_loop-Free n (i + 1) (better i b (files i)) files h (better-Free i b files free))
    ])

free_loop-files :
    (n i b : ℕ) (files : ℕ → FatFile) → ShortNames files → (free_loop n i b files).1 ≡ files
unfolding free_loop
free_loop-files zero i b files h = refl
free_loop-files (suc n) i b files h =
    rw (free_loop-round n i b files h) (elim (Bool-cases (char_at (files i).name == 0)) [
      | inl e ↦ rw (e, round) refl
      | inr e ↦ rw (e, round) (free_loop-files n (i + 1) (better i b (files i)) files h)
    ])

free_loop-lt :
    (n i b : ℕ) (files : ℕ → FatFile) → ShortNames files → b < i → (free_loop n i b files).0 < i + n
unfolding free_loop
free_loop-lt zero i b files h lt = omega arith
free_loop-lt (suc n) i b files h lt =
    rw (free_loop-round n i b files h) (elim (Bool-cases (char_at (files i).name == 0)) [
      | inl e ↦ rw (e, round) (omega arith)
      | inr e ↦
          let below : better i b (files i) < i + 1 = ground arith in
          let rest = free_loop-lt n (i + 1) (better i b (files i)) files h below in
          rw (e, round) (omega (arith, rest))
    ])

-- No file from `i` on among `n` is free.
abbrev pub AllInUse : (ℕ → FatFile) → (i n : ℕ) → Type 0
AllInUse files i n = (j : ℕ) → i ≤ j → j < i + n → ¬ Free (files j)

AllInUse-more :
    (n i b : ℕ) (files : ℕ → FatFile)
    → 0 < i
    → (char_at (files i).name == 0) ≡ false
    → (better i b (files i) ≡ 0) × AllInUse files (i + 1) n
    → (b ≡ 0) × AllInUse files i (suc n)
AllInUse-more n i b files pos named (kept, rest) =
    let unset : b ≡ 0 = ground arith in
    let refs : (files i).refs ≢ 0 = ground arith in
    (
      unset,
      λ j le lt free. elim (Bool-cases (j == i)) [
        | inr e ↦ let apart : j ≢ i = ground arith in rest j (omega arith) (omega arith) free
        | inl e ↦
            let here : Free (files i) = subst (λ x. Free (files x)) ((==_iff j i).0 e) free in
            elim here [ inl empty ↦ absurd (ground arith) | inr clunked ↦ absurd (refs clunked) ]
      ],
    )

free_loop-none :
    (n i b : ℕ) (files : ℕ → FatFile)
    → ShortNames files
    → 0 < i
    → (free_loop n i b files).0 ≡ 0
    → (b ≡ 0) × AllInUse files i n
unfolding free_loop
free_loop-none zero i b files h pos e = (e, λ j le lt. absurd (omega arith))
free_loop-none (suc n) i b files h pos e =
    let k = subst (λ r. r.0 ≡ 0) (free_loop-round n i b files h) e in
    elim (Bool-cases (char_at (files i).name == 0)) [
      | inl empty ↦
          let first : i ≡ 0 =
            subst
              (λ x.
                (elim x as (λ _. ℕ × (ℕ → FatFile)) [
                  | true ↦ (i, files)
                  | false ↦ free_loop n (i + 1) (better i b (files i)) files
                ]).0
                ≡ 0)
              empty k in
          absurd (omega arith)
      | inr named ↦ AllInUse-more n i b files pos named (
          free_loop-none n (i + 1) (better i b (files i)) files h (omega arith) (
            subst
              (λ x.
                (elim x as (λ _. ℕ × (ℕ → FatFile)) [
                  | true ↦ (i, files)
                  | false ↦ free_loop n (i + 1) (better i b (files i)) files
                ]).0
                ≡ 0)
              named k))
    ]

-- Whether a place is found, and what of the files is then.
abbrev pub Given : (ℕ → FatFile) → ℕ → (ℕ → FatFile) → Type 0
Given files i files' =
    ((i ≡ 0) × (files' ≡ files) × AllInUse files 1 31)
    ⊎ ((0 < i) × (i < fids_max) × Free (files i) × (files' ≡ update files i no_file))

pub find_free_fid-Given :
    (fat : Fat)
    → ShortNames fat.files
    → Given fat.files (find_free_fid fat).0 (find_free_fid fat).1.files
unfolding find_free_fid
find_free_fid-Given fat h =
    let files = fat.files in
    let r = free_loop 31 1 0 files in
    let same = free_loop-files 31 1 0 files h in
    elim (Bool-cases (r.0 == 0)) [
      | inl e ↦
          let nothing : r.0 ≡ 0 = (==_iff r.0 0).0 e in
          rw (e, find_free_fid)
            (inl (refl, same, (free_loop-none 31 1 0 files h (omega arith) nothing).1))
      | inr e ↦
          let pos : 0 < r.0 = ground arith in
          let free : Free (files r.0) = elim (free_loop-Free 31 1 0 files h (inl refl)) [
            | inl nothing ↦ absurd (omega arith)
            | inr free ↦ free
          ] in
          rw (e, find_free_fid)
            (inr (
              pos,
              free_loop-lt 31 1 0 files h (omega arith),
              free,
              ap (λ g. update g r.0 no_file) same,
            ))
    ]
