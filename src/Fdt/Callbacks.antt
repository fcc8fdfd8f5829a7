-- ===== src/Fdt/Callbacks.antt =====
-- fdt_find_node_compatable and fdt_find_node_device_type of lib/fdt/fdt.c over a whole tree.
use agatha.Prelude.{ℕ, ◌+◌, ◌<◌, ◌≤◌, ◌≡◌, Bool, some, List, [], ◌∷◌, length, All}
use agatha.Fdt.{align4, Header, fdt_check, Property, Turn, walk_node}
use agatha.Fdt.Format.{TextAt, Items, NodeAt, weight, Entry, entries}
use agatha.Fdt.Skip.{walk_node-NodeAt}
use agatha.Fdt.Find.{
  end_state, compatible, device_type, compatable_prop, find_node_compatable, device_type_prop,
  find_node_device_type,
}
use agatha.Fdt.Readable.{Readable, entries-Readable}
use agatha.Fdt.Calls.{
  StringsAt, strings_weight, with_strings, called, state-call_all, Calls, run-Calls,
  Calls-compatable, Calls-device_type,
}

-- The strings that the data of the properties of that name is made of.
abbrev pub Contents :
    (fuel : ℕ) → (ℕ → ℕ) → (name : List ℕ) → (Property → List (List ℕ)) → List Entry → Type 0
Contents fuel mem name contents xs =
    All
      (λ x.
        x.name ≡ name
        → StringsAt mem x.value.data_at x.value.len (contents x.value)
          × (strings_weight (contents x.value) ≤ fuel))
      xs

-- Each property of that name has a string at its data.
abbrev pub Content :
    (fuel : ℕ) → (ℕ → ℕ) → (name : List ℕ) → (Property → List ℕ) → List Entry → Type 0
Content fuel mem name contents xs =
    All
      (λ x.
        x.name ≡ name
        → TextAt mem x.value.data_at (contents x.value) × (length (contents x.value) < fuel))
      xs

module _ {S : Type 0} (callback : (node : ℕ) → S → Bool × S) where
  walk-Calls :
      (act : (node : ℕ) → Property → S → Turn S) (word wanted : List ℕ)
      (contents : Property → List (List ℕ)) (fuel : ℕ) (mem : ℕ → ℕ) (strings a : ℕ) (name : List ℕ)
      (items : Items) (e : ℕ) (s : S)
      → NodeAt mem strings a name items e
      → length name < fuel
      → weight items ≤ fuel
      → All (Calls callback act word wanted contents) (entries a items)
      → end_state (walk_node act fuel mem strings a s)
        ≡ some (called callback (with_strings word wanted contents (entries a items)) s)
  walk-Calls act word wanted contents fuel mem strings a name items e s h lt le hs =
      rw (walk_node-NodeAt act fuel mem strings a name items e s h lt le) (
        rw (run-Calls callback act word wanted contents (entries a items) s hs)
          (state-call_all callback e act (with_strings word wanted contents (entries a items)) s))

  compatable_prop-Calls :
      (fuel : ℕ) (mem : ℕ → ℕ) (wanted : List ℕ) (contents : Property → List (List ℕ))
      (xs : List Entry)
      → All (Readable fuel mem) xs
      → Contents fuel mem compatible contents xs
      → All
          (Calls callback (compatable_prop callback fuel mem wanted) compatible wanted contents)
          xs
  compatable_prop-Calls fuel mem wanted contents [] h k = tt
  compatable_prop-Calls fuel mem wanted contents (x ∷ xs) h k = (
    Calls-compatable callback fuel mem wanted contents x h.0 k.0,
    compatable_prop-Calls fuel mem wanted contents xs h.1 k.1,
  )

  device_type_prop-Calls :
      (fuel : ℕ) (mem : ℕ → ℕ) (wanted : List ℕ) (contents : Property → List ℕ) (xs : List Entry)
      → All (Readable fuel mem) xs
      → Content fuel mem device_type contents xs
      → All
          (Calls callback
            (device_type_prop callback fuel mem wanted)
            device_type
            wanted
            (λ v. contents v ∷ []))
          xs
  device_type_prop-Calls fuel mem wanted contents [] h k = tt
  device_type_prop-Calls fuel mem wanted contents (x ∷ xs) h k = (
    Calls-device_type callback fuel mem wanted contents x h.0 k.0,
    device_type_prop-Calls fuel mem wanted contents xs h.1 k.1,
  )

  -- In a tree whose header passes fdt_check, whose root is in memory with enough fuel for it, and
  -- where the data of each property "compatible" is made of strings, fdt_find_node_compatable calls
  -- the callback on the nodes with a "compatible" that has the wanted string, in the order of the tree
  -- and once for each time it has it, until the callback gives false.
  pub find_node_compatable-called :
      (fuel : ℕ) (mem : ℕ → ℕ) (dtb : ℕ) (wanted : List ℕ) (s : S) (head : Header) (name : List ℕ)
      (items : Items) (e : ℕ) (contents : Property → List (List ℕ))
      → fdt_check mem dtb ≡ some head
      → NodeAt mem (dtb + head.off_dt_strings) (dtb + head.off_dt_struct) name items e
      → length name < fuel
      → weight items ≤ fuel
      → Contents fuel mem compatible contents (entries (dtb + head.off_dt_struct) items)
      → find_node_compatable callback fuel mem dtb wanted s
        ≡ some (
            called callback
              (with_strings compatible wanted contents (entries (dtb + head.off_dt_struct) items))
              s)
  unfolding find_node_compatable
  find_node_compatable-called fuel mem dtb wanted s head name items e contents is h lt le data_is =
      let strings = dtb + head.off_dt_strings in
      let a = dtb + head.off_dt_struct in
      rw (is, find_node_compatable)
        (walk-Calls (compatable_prop callback fuel mem wanted) compatible wanted contents fuel mem
          strings a name items e s h lt le
          (compatable_prop-Calls fuel mem wanted contents (entries a items)
            (entries-Readable items fuel mem strings a (a + 4 + align4 (length name + 1)) e h.2 le)
            data_is))

  pub find_node_device_type-called :
      (fuel : ℕ) (mem : ℕ → ℕ) (dtb : ℕ) (wanted : List ℕ) (s : S) (head : Header) (name : List ℕ)
      (items : Items) (e : ℕ) (contents : Property → List ℕ)
      → fdt_check mem dtb ≡ some head
      → NodeAt mem (dtb + head.off_dt_strings) (dtb + head.off_dt_struct) name items e
      → length name < fuel
      → weight items ≤ fuel
      → Content fuel mem device_type contents (entries (dtb + head.off_dt_struct) items)
      → find_node_device_type callback fuel mem dtb wanted s
        ≡ some (
            called callback
              (with_strings device_type wanted
                (λ v. contents v ∷ [])
                (entries (dtb + head.off_dt_struct) items))
              s)
  unfolding find_node_device_type
  find_node_device_type-called fuel mem dtb wanted s head name items e contents is h lt le data_is =
      let strings = dtb + head.off_dt_strings in
      let a = dtb + head.off_dt_struct in
      rw (is, find_node_device_type)
        (walk-Calls (device_type_prop callback fuel mem wanted) device_type wanted
          (λ v. contents v ∷ []) fuel mem strings a name items e s h lt le
          (device_type_prop-Calls fuel mem wanted contents (entries a items)
            (entries-Readable items fuel mem strings a (a + 4 + align4 (length name + 1)) e h.2 le)
            data_is))
