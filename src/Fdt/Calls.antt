-- ===== src/Fdt/Calls.antt =====
-- The callbacks that fdt_find_node_compatable and fdt_find_node_device_type of lib/fdt/fdt.c make.
use agatha.Prelude.{
  ℕ, zero, suc, ◌+◌, ◌<◌, ◌≤◌, ◌≡◌, refl, sym, subst, arith, Bool, Bool-cases, inl, inr, true,
  false, ltb, some, List, [], ◌∷◌, ◌++◌, length, All,
}
use agatha.Text.{strcmp}
use agatha.Text.Compare.{strcmp_iff}
use agatha.Fdt.{Property, Turn, on, halt, no_fuel}
use agatha.Fdt.Format.{TextAt, Entry}
use agatha.Fdt.Walk.{text_at-TextAt, run, outcome}
use agatha.Fdt.Lookups.{TextAt-IsText}
use agatha.Fdt.Find.{
  when_text, end_state, call, compatible, device_type, compatable_strings, compatable_prop,
  device_type_prop,
}
use agatha.Fdt.Readable.{Readable}

-- The strings fill the `n` bytes at `a`.
abbrev pub StringsAt : (ℕ → ℕ) → (a n : ℕ) → List (List ℕ) → Type 0
StringsAt mem a n [] = n ≡ 0
StringsAt mem a n (t ∷ ts) =
    TextAt mem a t × (m : ℕ) × (n ≡ length t + 1 + m) × StringsAt mem (a + (length t + 1)) m ts

abbrev pub strings_weight : List (List ℕ) → ℕ
strings_weight [] = 1
strings_weight (t ∷ ts) = suc (suc (length t) + strings_weight ts)

-- The node, once for each string that is the wanted one.
abbrev pub repeats : (wanted : List ℕ) → (node : ℕ) → List (List ℕ) → List ℕ
repeats wanted node [] = []
repeats wanted node (t ∷ ts) = elim (strcmp wanted t) [
  | true ↦ node ∷ repeats wanted node ts
  | false ↦ repeats wanted node ts
]

-- The nodes with a property of that name, each once for each of the wanted strings in it.
abbrev pub with_strings :
    (name wanted : List ℕ) → (contents : Property → List (List ℕ)) → List Entry → List ℕ
with_strings name wanted contents [] = []
with_strings name wanted contents (x ∷ xs) = elim (strcmp name x.name) [
  | true ↦ repeats wanted x.node (contents x.value) ++ with_strings name wanted contents xs
  | false ↦ with_strings name wanted contents xs
]

module _ {S : Type 0} (callback : (node : ℕ) → S → Bool × S) where
  -- The callback on the nodes, one after another, until it gives false.
  abbrev pub called : List ℕ → S → S
  called [] s = s
  called (n ∷ ns) s = elim (callback n s).0 [
    | true ↦ called ns (callback n s).1
    | false ↦ (callback n s).1
  ]

  -- The same as a turn of a walk.
  abbrev pub call_all : List ℕ → S → Turn S
  call_all [] s = on s
  call_all (n ∷ ns) s = call callback n s (λ s'. call_all ns s')

  pub state-call_all :
      (e : ℕ) (act : (node : ℕ) → Property → S → Turn S) (ns : List ℕ) (s : S)
      → end_state (outcome act e (call_all ns s)) ≡ some (called ns s)
  state-call_all e act [] s = refl
  state-call_all e act (n ∷ ns) s = elim (Bool-cases (callback n s).0) [
    | inl b ↦ rw (b, end_state, called) (state-call_all e act ns (callback n s).1)
    | inr b ↦ rw (b, end_state, called) refl
  ]

  abbrev then_run : (act : (node : ℕ) → Property → S → Turn S) → List Entry → Turn S → Turn S
  then_run act xs t = elim t [ on s' ↦ run act xs s' | halt s' ↦ halt s' | no_fuel ↦ no_fuel ]

  then_run-call_all :
      (act : (node : ℕ) → Property → S → Turn S) (xs : List Entry) (ms ns : List ℕ) (s : S)
      → ((s' : S) → run act xs s' ≡ call_all ms s')
      → then_run act xs (call_all ns s) ≡ call_all (ns ++ ms) s
  then_run-call_all act xs ms [] s h = h s
  then_run-call_all act xs ms (n ∷ ns) s h = elim (Bool-cases (callback n s).0) [
    | inl b ↦ rw (b, then_run, call) (then_run-call_all act xs ms ns (callback n s).1 h)
    | inr b ↦ rw (b, then_run, call) refl
  ]

  -- What a case FDT_PROP does that looks for the strings of a property.
  abbrev pub Calls :
      (act : (node : ℕ) → Property → S → Turn S)
      → (name wanted : List ℕ) → (contents : Property → List (List ℕ)) → Entry
      → Type 0
  Calls act name wanted contents x =
      (s : S)
      → act x.node x.value s ≡ elim (strcmp name x.name) [
        | true ↦ call_all (repeats wanted x.node (contents x.value)) s
        | false ↦ on s
      ]

  pub run-Calls :
      (act : (node : ℕ) → Property → S → Turn S) (name wanted : List ℕ)
      (contents : Property → List (List ℕ)) (xs : List Entry) (s : S)
      → All (Calls act name wanted contents) xs
      → run act xs s ≡ call_all (with_strings name wanted contents xs) s
  run-Calls act name wanted contents [] s h = refl
  run-Calls act name wanted contents (x ∷ xs) s h = elim (Bool-cases (strcmp name x.name)) [
    | inl b ↦
        rw (h.0 s, run)
          (rw (b, with_strings)
            (then_run-call_all act xs (with_strings name wanted contents xs)
              (repeats wanted x.node (contents x.value)) s
              (λ s'. run-Calls act name wanted contents xs s' h.1)))
    | inr b ↦ rw (h.0 s, run) (rw (b, with_strings) (run-Calls act name wanted contents xs s h.1))
  ]

  strings-call_all :
      (ts : List (List ℕ)) (fuel : ℕ) (mem : ℕ → ℕ) (wanted : List ℕ) (d len i n node : ℕ) (s : S)
      → StringsAt mem (d + i) n ts
      → len ≡ i + n
      → strings_weight ts ≤ fuel
      → compatable_strings callback fuel mem wanted d len i node s
        ≡ call_all (repeats wanted node ts) s
  unfolding compatable_strings
  strings-call_all [] zero mem wanted d len i n node s h e le = absurd (omega arith)
  strings-call_all (t ∷ ts) zero mem wanted d len i n node s h e le = absurd (omega arith)
  strings-call_all [] (suc fuel) mem wanted d len i n node s h e le =
      let done : ltb i len ≡ false = ground arith in rw (done, compatable_strings) refl
  strings-call_all (t ∷ ts) (suc fuel) mem wanted d len i n node s (text, m, is, later) e le =
      let more : ltb i len ≡ true = ground arith in
      let rest = strings-call_all ts fuel mem wanted d len (i + (length t + 1)) m node in
      let there : StringsAt mem (d + (i + (length t + 1))) m ts =
        subst (λ x. StringsAt mem x m ts) (omega arith) later in
      rw (more, compatable_strings)
        (rw (text_at-TextAt fuel mem (d + i) t text (omega arith))
          (elim (Bool-cases (strcmp wanted t)) [
            | inr b ↦ rw (b, repeats) (rest s there (omega arith) (omega arith))
            | inl b ↦
                rw (b, repeats)
                  (elim (Bool-cases (callback node s).0) [
                    | inl c ↦
                        rw (c, call) (rest (callback node s).1 there (omega arith) (omega arith))
                    | inr c ↦ rw (c, call) refl
                  ])
          ]))

  pub Calls-compatable :
      (fuel : ℕ) (mem : ℕ → ℕ) (wanted : List ℕ) (contents : Property → List (List ℕ)) (x : Entry)
      → Readable fuel mem x
      → (x.name ≡ compatible
          → StringsAt mem x.value.data_at x.value.len (contents x.value)
            × (strings_weight (contents x.value) ≤ fuel))
      → Calls (compatable_prop callback fuel mem wanted) compatible wanted contents x
  unfolding compatable_prop
  Calls-compatable fuel mem wanted contents x h fills s =
      rw (text_at-TextAt fuel mem x.value.name x.name h.0 h.1, compatable_prop, when_text)
        (elim (Bool-cases (strcmp compatible x.name)) [
          | inr b ↦ rw b refl
          | inl b ↦
              let same : x.name ≡ compatible = sym (
                (strcmp_iff compatible x.name (ground arith)
                    (TextAt-IsText mem x.value.name x.name h.0)).0
                  b) in
              let zero_first : x.value.data_at ≡ x.value.data_at + 0 = omega arith in
              rw b (
                strings-call_all (contents x.value) fuel mem wanted x.value.data_at x.value.len 0
                  x.value.len x.node s
                  (subst (λ y. StringsAt mem y x.value.len (contents x.value)) zero_first
                    (fills same).0)
                  (omega arith) (fills same).1)
        ])

  pub Calls-device_type :
      (fuel : ℕ) (mem : ℕ → ℕ) (wanted : List ℕ) (contents : Property → List ℕ) (x : Entry)
      → Readable fuel mem x
      → (x.name ≡ device_type
          → TextAt mem x.value.data_at (contents x.value) × (length (contents x.value) < fuel))
      → Calls
          (device_type_prop callback fuel mem wanted)
          device_type
          wanted
          (λ v. contents v ∷ [])
          x
  unfolding device_type_prop
  Calls-device_type fuel mem wanted contents x h reads s =
      rw (text_at-TextAt fuel mem x.value.name x.name h.0 h.1, device_type_prop, when_text)
        (elim (Bool-cases (strcmp device_type x.name)) [
          | inr b ↦ rw b refl
          | inl b ↦
              let same : x.name ≡ device_type = sym (
                (strcmp_iff device_type x.name (ground arith)
                    (TextAt-IsText mem x.value.name x.name h.0)).0
                  b) in
              rw b (
                rw
                  (
                    text_at-TextAt fuel mem x.value.data_at (contents x.value) (reads same).0
                        (reads same).1,
                    when_text,
                  )
                  (elim (Bool-cases (strcmp wanted (contents x.value))) [
                    | inl c ↦ rw (c, repeats) refl
                    | inr c ↦ rw (c, repeats) refl
                  ]))
        ])
