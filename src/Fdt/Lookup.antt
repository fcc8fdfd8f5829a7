-- ===== src/Fdt/Lookup.antt =====
-- A node's own properties: fdt_node_property, fdt_node_phandle and fdt_node_regs of lib/fdt/fdt.c. The
-- pointer `data` of the caller is `none` while nothing is written to it.
use agatha.Prelude.{
  ℕ, zero, suc, ◌+◌, ◌*◌, ◌^◌, ◌%◌, Bool, true, false, ◌||◌, ◌-◌, leb, ◌==◌, if◌then◌else◌, Option,
  none, some, List, [], ◌∷◌,
}
use agatha.Text.{strcmp}
use agatha.Fdt.{
  beto32, fdt_check, begin_node, end_node, prop, nop, bad, token, text_at, get_prop, skip_prop,
  first_item, reached, stopped, out_of_fuel,
}
use agatha.Fdt.Format.{Items, finish, padding, property, child, Entry}
use agatha.Fdt.Skip.{skip_node}

-- What `fdt_node_property` comes to: a length, with the data; -1, with what `data` is then; no fuel.
pub data Lookup : Type 0 where
  got : (len data_at : ℕ) → Lookup
  missing : (data_at : Option ℕ) → Lookup
  starved : Lookup

-- The loop of `fdt_node_property`.
unfoldable pub own_prop :
    (fuel : ℕ)
    → (ℕ → ℕ)
    → (strings : ℕ) → (wanted : List ℕ) → (p : ℕ) → (data_at : Option ℕ) → Lookup
own_prop zero mem strings wanted p d = starved
own_prop (suc fuel) mem strings wanted p d = elim (token (beto32 mem p)) [
  | bad ↦ missing d
  | end_node ↦ missing d
  | begin_node ↦ elim (skip_node fuel mem strings p) [
    | reached r _ ↦ own_prop fuel mem strings wanted (r + 4) d
    | stopped _ ↦ missing d
    | out_of_fuel ↦ starved
  ]
  | nop ↦ own_prop fuel mem strings wanted (p + 4) d
  | prop ↦ elim (text_at fuel mem (get_prop mem strings p).name) [
    | none ↦ starved
    | some s ↦ elim (strcmp wanted s) [
      | true ↦ got (get_prop mem strings p).len (get_prop mem strings p).data_at
      | false ↦
          own_prop fuel mem strings wanted (skip_prop mem p + 4)
            (some (get_prop mem strings p).data_at)
    ]
  ]
]

-- `fdt_node_property`
unfoldable pub node_property : (fuel : ℕ) → (ℕ → ℕ) → (dtb node : ℕ) → (wanted : List ℕ) → Lookup
node_property fuel mem dtb node wanted = elim (fdt_check mem dtb) [
  | none ↦ missing none
  | some head ↦ elim (first_item fuel mem node) [
    | none ↦ starved
    | some p ↦ own_prop fuel mem (dtb + head.off_dt_strings) wanted p none
  ]
]

-- "phandle" and "reg"
abbrev pub phandle : List ℕ
phandle = 112 ∷ 104 ∷ 97 ∷ 110 ∷ 100 ∷ 108 ∷ 101 ∷ []

abbrev pub reg : List ℕ
reg = 114 ∷ 101 ∷ 103 ∷ []

-- A length as an `int` that is not above 0.
abbrev pub not_positive : ℕ → Bool
not_positive len = len == 0 || leb (2 ^ 31) len

-- `fdt_node_phandle`, with `none` where there is no fuel.
unfoldable pub node_phandle : (fuel : ℕ) → (ℕ → ℕ) → (dtb node : ℕ) → Option ℕ
node_phandle fuel mem dtb node = elim (node_property fuel mem dtb node phandle) [
  | got len d ↦ some (if not_positive len then 0 else beto32 mem d)
  | missing d ↦ some 0
  | starved ↦ none
]

-- What `fdt_node_regs` comes to; `unset` is a read through a pointer that nothing was written to.
pub data Regs : Type 0 where
  regs : (addr size : ℕ) → Regs
  no_regs : Regs
  unset : Regs
  no_end : Regs

-- `ind * sizeof(uint32_t) * 2`
abbrev pub regs_index : ℕ → ℕ
regs_index ind = ind * 4 * 2 % 2 ^ 32

-- The word of `data` at that index, and the one behind it.
abbrev pub regs_at : (ℕ → ℕ) → (d ind : ℕ) → Regs
regs_at mem d ind =
    regs (beto32 mem (d + 4 * regs_index ind)) (beto32 mem (d + 4 * (regs_index ind + 1)))

-- `fdt_node_regs`, whose `len` is a `size_t`, so that -1 is the greatest one.
unfoldable pub node_regs : (fuel : ℕ) → (ℕ → ℕ) → (dtb node ind : ℕ) → Regs
node_regs fuel mem dtb node ind = elim (node_property fuel mem dtb node reg) [
  | got len d ↦ if leb len (regs_index ind) then no_regs else regs_at mem d ind
  | missing none ↦ if leb (2 ^ 32 - 1) (regs_index ind) then no_regs else unset
  | missing (some d) ↦ if leb (2 ^ 32 - 1) (regs_index ind) then no_regs else regs_at mem d ind
  | starved ↦ no_end
]

-- The properties of a node itself, in their order.
abbrev pub own : (node : ℕ) → Items → List Entry
own node finish = []
own node (padding rest) = own node rest
own node (property v name rest) = record { node = node; value = v; name = name } ∷ own node rest
own node (child a name inner rest) = own node rest

-- The data of the last of them.
abbrev pub last_data : List Entry → Option ℕ → Option ℕ
last_data [] d = d
last_data (x ∷ xs) d = last_data xs (some x.value.data_at)

abbrev pub looked_up : List Entry → Option ℕ → Option Entry → Lookup
looked_up xs d none = missing (last_data xs d)
looked_up xs d (some x) = got x.value.len x.value.data_at
