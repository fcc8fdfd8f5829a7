-- ===== src/Fdt/Find.antt =====
-- Searches through a tree: fdt_find_node_phandle, fdt_find_node_compatable and
-- fdt_find_node_device_type of lib/fdt/fdt.c. A callback is given a node and its state, and says with
-- false that it has enough; it does not write to the tree.
use agatha.Prelude.{
  ℕ, zero, suc, ◌+◌, Bool, true, false, ltb, ◌==◌, Option, none, some, List, [], ◌∷◌, length,
}
use agatha.Text.{strcmp}
use agatha.Fdt.{
  beto32, fdt_check, text_at, Property, Turn, on, halt, no_fuel, WalkEnd, reached, stopped,
  out_of_fuel, walk_node,
}
use agatha.Fdt.Lookup.{phandle}

-- A test of the string at an address.
abbrev pub when_text :
    {S : Type 0}
    → (fuel : ℕ) → (ℕ → ℕ)
    → (wanted : List ℕ) → (a : ℕ) → (yes otherwise : Turn S) → Turn S
when_text fuel mem wanted a t u = elim (text_at fuel mem a) [
  | none ↦ no_fuel
  | some s ↦ elim (strcmp wanted s) [ true ↦ t | false ↦ u ]
]

-- The state is what a walk ends with.
abbrev pub end_state : {S : Type 0} → WalkEnd S → Option S
end_state (reached p s) = some s
end_state (stopped s) = some s
end_state out_of_fuel = none

-- The case FDT_PROP of `fdt_find_node_phandle_h`. Its state is `found` and the node that it returns.
unfoldable pub phandle_prop :
    (fuel : ℕ) → (ℕ → ℕ) → (handle node : ℕ) → Property → Option ℕ → Turn (Option ℕ)
phandle_prop fuel mem handle node v s =
    when_text fuel mem phandle v.name
      (elim (beto32 mem v.data_at == handle) [ true ↦ halt (some node) | false ↦ on s ]) (on s)

-- `fdt_find_node_phandle`: nil is `some none`, and without fuel there is `none`.
unfoldable pub find_node_phandle : (fuel : ℕ) → (ℕ → ℕ) → (dtb node handle : ℕ) → Option (Option ℕ)
find_node_phandle fuel mem dtb node handle = elim (fdt_check mem dtb) [
  | none ↦ some none
  | some head ↦
      end_state
        (walk_node (phandle_prop fuel mem handle) fuel mem (dtb + head.off_dt_strings) node none)
]

-- "compatible" and "device_type"
abbrev pub compatible : List ℕ
compatible = 99 ∷ 111 ∷ 109 ∷ 112 ∷ 97 ∷ 116 ∷ 105 ∷ 98 ∷ 108 ∷ 101 ∷ []

abbrev pub device_type : List ℕ
device_type = 100 ∷ 101 ∷ 118 ∷ 105 ∷ 99 ∷ 101 ∷ 95 ∷ 116 ∷ 121 ∷ 112 ∷ 101 ∷ []

module _ {S : Type 0} (callback : (node : ℕ) → S → Bool × S) where
  -- `callback(dtb, node, arg)`, and what follows where it gives true.
  abbrev pub call : (node : ℕ) → S → (S → Turn S) → Turn S
  call node s next = elim (callback node s).0 [
    | true ↦ next (callback node s).1
    | false ↦ halt (callback node s).1
  ]

  -- The loop over the strings of a property in `fdt_find_node_compatable_h`.
  unfoldable pub compatable_strings :
      (fuel : ℕ) → (ℕ → ℕ) → (compatable : List ℕ) → (d len i node : ℕ) → S → Turn S
  compatable_strings zero mem compatable d len i node s = no_fuel
  compatable_strings (suc fuel) mem compatable d len i node s = elim (ltb i len) [
    | false ↦ on s
    | true ↦ elim (text_at fuel mem (d + i)) [
      | none ↦ no_fuel
      | some t ↦ elim (strcmp compatable t) [
        | true ↦
            call node s
              (λ s'. compatable_strings fuel mem compatable d len (i + (length t + 1)) node s')
        | false ↦ compatable_strings fuel mem compatable d len (i + (length t + 1)) node s
      ]
    ]
  ]

  -- The case FDT_PROP of `fdt_find_node_compatable_h`.
  unfoldable pub compatable_prop :
      (fuel : ℕ) → (ℕ → ℕ) → (compatable : List ℕ) → (node : ℕ) → Property → S → Turn S
  compatable_prop fuel mem compatable node v s =
      when_text fuel mem compatible v.name
        (compatable_strings fuel mem compatable v.data_at v.len 0 node s) (on s)

  -- `fdt_find_node_compatable`
  unfoldable pub find_node_compatable :
      (fuel : ℕ) → (ℕ → ℕ) → (dtb : ℕ) → (compatable : List ℕ) → S → Option S
  find_node_compatable fuel mem dtb compatable s = elim (fdt_check mem dtb) [
    | none ↦ some s
    | some head ↦ end_state (
        walk_node (compatable_prop fuel mem compatable) fuel mem (dtb + head.off_dt_strings)
          (dtb + head.off_dt_struct) s)
  ]

  -- The case FDT_PROP of `fdt_find_node_device_type_h`.
  unfoldable pub device_type_prop :
      (fuel : ℕ) → (ℕ → ℕ) → (type : List ℕ) → (node : ℕ) → Property → S → Turn S
  device_type_prop fuel mem type node v s =
      when_text fuel mem device_type v.name
        (when_text fuel mem type v.data_at (call node s (λ s'. on s')) (on s)) (on s)

  -- `fdt_find_node_device_type`
  unfoldable pub find_node_device_type :
      (fuel : ℕ) → (ℕ → ℕ) → (dtb : ℕ) → (type : List ℕ) → S → Option S
  find_node_device_type fuel mem dtb type s = elim (fdt_check mem dtb) [
    | none ↦ some s
    | some head ↦ end_state (
        walk_node (device_type_prop fuel mem type) fuel mem (dtb + head.off_dt_strings)
          (dtb + head.off_dt_struct) s)
  ]
