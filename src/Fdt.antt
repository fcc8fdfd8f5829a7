-- ===== src/Fdt.antt =====
-- Flattened device trees: lib/fdt/fdt.c. The tree is read from memory by address, a byte each; `text_at`
-- is the string at an address, and no address wraps around. What runs on fuel says so in its result.
pub mod Format
pub mod Walk
pub mod First
pub mod Skip
pub mod Lookup
pub mod Lookups
pub mod Registers
pub mod Find
pub mod Readable
pub mod Finds
pub mod Calls
pub mod Callbacks
pub mod Path
pub mod Paths
pub mod Leads
pub mod Driver
pub mod Reserved
pub mod Blob
pub mod Tests
use agatha.Prelude.{
  ℕ, zero, suc, ◌+◌, ◌-◌, ◌*◌, ◌/◌, ◌%◌, ◌^◌, Bool, true, false, not, ◌&&◌, ◌||◌, ltb, leb, ◌==◌,
  if◌then◌else◌, Option, none, some, List, [], ◌∷◌, length,
}
use agatha.Text.{strcmp}

-- beto32 and beto64, of bytes
abbrev pub beto32 : (ℕ → ℕ) → ℕ → ℕ
beto32 mem a = mem a * 2 ^ 24 + mem (a + 1) * 2 ^ 16 + mem (a + 2) * 2 ^ 8 + mem (a + 3)

abbrev pub beto64 : (ℕ → ℕ) → ℕ → ℕ
beto64 mem a = beto32 mem a * 2 ^ 32 + beto32 mem (a + 4)

-- `(n + 3) & ~3`
abbrev pub align4 : ℕ → ℕ
align4 n = (n + 3) / 4 * 4

-- `struct fdt_header`, as far as it is used.
pub record Header : Type 0 where
  pub totalsize : ℕ
  pub off_dt_struct : ℕ
  pub off_dt_strings : ℕ
  pub off_mem_rsvmap : ℕ

-- `fdt_check`
unfoldable pub fdt_check : (ℕ → ℕ) → (dtb : ℕ) → Option Header
fdt_check mem dtb =
    if not (beto32 mem dtb == 0xd00dfeed)
    then none
    else if not (beto32 mem (dtb + 20) == 17)
    then none
    else some (record {
      totalsize = beto32 mem (dtb + 4);
      off_dt_struct = beto32 mem (dtb + 8);
      off_dt_strings = beto32 mem (dtb + 12);
      off_mem_rsvmap = beto32 mem (dtb + 16);
    })

-- `fdt_size`
unfoldable pub fdt_size : (ℕ → ℕ) → (dtb : ℕ) → ℕ
fdt_size mem dtb = elim (fdt_check mem dtb) [ none ↦ 0 | some head ↦ head.totalsize ]

-- `fdt_root_node`
unfoldable pub root_node : (ℕ → ℕ) → (dtb : ℕ) → Option ℕ
root_node mem dtb = elim (fdt_check mem dtb) [
  | none ↦ none
  | some head ↦ some (dtb + head.off_dt_struct)
]

-- `fdt_node_name`
unfoldable pub node_name : (node : ℕ) → ℕ
node_name node = node + 4

-- FDT_BEGIN_NODE, FDT_END_NODE, FDT_PROP and FDT_NOP
pub data Token : Type 0 where
  begin_node end_node prop nop bad : Token

abbrev pub token : ℕ → Token
token w =
    if w == 1
    then begin_node
    else if w == 2
    then end_node
    else if w == 3
    then prop
    else if w == 4
    then nop
    else bad

unfoldable pub text_at : (fuel : ℕ) → (ℕ → ℕ) → (a : ℕ) → Option (List ℕ)
text_at zero mem a = none
text_at (suc fuel) mem a = elim (mem a == 0) [
  | true ↦ some []
  | false ↦ elim (text_at fuel mem (a + 1)) [ none ↦ none | some s ↦ some (mem a ∷ s) ]
]

-- What `fdt_get_prop` gives: the addresses of the name and of the data, and the length of the data.
pub record Property : Type 0 where
  pub name : ℕ
  pub data_at : ℕ
  pub len : ℕ

abbrev pub get_prop : (ℕ → ℕ) → (strings p : ℕ) → Property
get_prop mem strings p = record {
  name = strings + beto32 mem (p + 8);
  data_at = p + 12;
  len = beto32 mem (p + 4);
}

-- The pointer that `fdt_get_prop` and `fdt_skip_prop` return: the last word of the property.
abbrev pub skip_prop : (ℕ → ℕ) → (p : ℕ) → ℕ
skip_prop mem p = p + 8 + align4 (beto32 mem (p + 4))

-- Where what is in a node begins, behind its name.
abbrev pub first_item : (fuel : ℕ) → (ℕ → ℕ) → (node : ℕ) → Option ℕ
first_item fuel mem node = elim (text_at fuel mem (node + 4)) [
  | none ↦ none
  | some s ↦ some (node + 4 + align4 (length s + 1))
]

-- What a function makes of a property: the walk goes on, or it ends.
pub data Turn (S : Type 0) : Type 0 where
  on : (s : S) → Turn S
  halt : (s : S) → Turn S
  no_fuel : Turn S

-- What a walk comes to: the end of the node, nil or a result that ends all the walks around it, or no
-- fuel.
pub data WalkEnd (S : Type 0) : Type 0 where
  reached : (p : ℕ) (s : S) → WalkEnd S
  stopped : (s : S) → WalkEnd S
  out_of_fuel : WalkEnd S

-- The loop that `fdt_skip_node`, `fdt_find_node_compatable_h`, `fdt_find_node_phandle_h` and
-- `fdt_find_node_device_type_h` share, over what is in `node` from `p` on. They differ in `act`.
unfoldable pub walk_items :
    {S : Type 0}
    → (act : (node : ℕ) → Property → S → Turn S) → (fuel : ℕ) → (ℕ → ℕ)
    → (strings node p : ℕ) → S
    → WalkEnd S
walk_items act zero mem strings node p s = out_of_fuel
walk_items act (suc fuel) mem strings node p s = elim (token (beto32 mem p)) [
  | bad ↦ stopped s
  | end_node ↦ reached p s
  | begin_node ↦ elim (first_item fuel mem p) [
    | none ↦ out_of_fuel
    | some q ↦ elim (walk_items act fuel mem strings p q s) [
      | reached r s' ↦ walk_items act fuel mem strings node (r + 4) s'
      | stopped s' ↦ stopped s'
      | out_of_fuel ↦ out_of_fuel
    ]
  ]
  | nop ↦ walk_items act fuel mem strings node (p + 4) s
  | prop ↦ elim (act node (get_prop mem strings p) s) [
    | on s' ↦ walk_items act fuel mem strings node (skip_prop mem p + 4) s'
    | halt s' ↦ stopped s'
    | no_fuel ↦ out_of_fuel
  ]
]

-- The walk over the node at `a`.
abbrev pub walk_node :
    {S : Type 0}
    → (act : (node : ℕ) → Property → S → Turn S) → (fuel : ℕ) → (ℕ → ℕ)
    → (strings a : ℕ) → S
    → WalkEnd S
walk_node act fuel mem strings a s = elim (first_item fuel mem a) [
  | none ↦ out_of_fuel
  | some q ↦ walk_items act fuel mem strings a q s
]
