-- ===== src/Fdt/Path.antt =====
-- fdt_find_node_path of lib/fdt/fdt.c.
use agatha.Prelude.{ℕ, zero, suc, ◌+◌, true, false, ◌==◌, Option, none, some, List, [], ◌∷◌, length}
use agatha.Fdt.{
  beto32, align4, begin_node, end_node, prop, nop, bad, token, text_at, skip_prop, WalkEnd, reached,
  stopped, out_of_fuel,
}
use agatha.Fdt.Find.{end_state}
use agatha.Fdt.Skip.{skip_node}

-- The loop over `pc[i]` and `path[i]`: what is left of the path, or `none` for `skip`.
unfoldable pub left_path : (name path : List ℕ) → Option (List ℕ)
left_path [] path = some path
left_path (c ∷ name) [] = some []
left_path (c ∷ name) (d ∷ path) = elim (d == 47) [
  | true ↦ some (d ∷ path)
  | false ↦ elim (c == d) [ true ↦ left_path name path | false ↦ none ]
]

-- What `fdt_find_node_path_h` does with a node: it leaves it out, returns it, or goes into it with the
-- path behind the next character.
pub data Choice : Type 0 where
  leave_out : Choice
  here : Choice
  inside : (path : List ℕ) → Choice

abbrev pub choice_of : Option (List ℕ) → Choice
choice_of none = leave_out
choice_of (some []) = here
choice_of (some (c ∷ path)) = inside path

abbrev pub choice_at : (name path : List ℕ) → Choice
choice_at name path = choice_of (left_path name path)

-- What `fdt_find_node_path_h` does from the name of the node on, with its loop over what is inside as an
-- argument. A node that is found is what a walk stops with.
abbrev pub path_node_by :
    (loop : (path : List ℕ) → (p : ℕ) → WalkEnd (Option ℕ))
    → (fuel : ℕ) → (ℕ → ℕ)
    → (strings : ℕ) → (path : List ℕ) → (node : ℕ) → WalkEnd (Option ℕ)
path_node_by loop fuel mem strings path node = elim (text_at fuel mem (node + 4)) [
  | none ↦ out_of_fuel
  | some name ↦ elim (choice_at name path) [
    | leave_out ↦ elim (skip_node fuel mem strings node) [
      | reached e _ ↦ reached e none
      | stopped _ ↦ stopped none
      | out_of_fuel ↦ out_of_fuel
    ]
    | here ↦ stopped (some node)
    | inside rest ↦ loop rest (node + 4 + align4 (length name + 1))
  ]
]

-- The loop of `fdt_find_node_path_h`.
unfoldable pub path_items :
    (fuel : ℕ) → (ℕ → ℕ) → (strings : ℕ) → (path : List ℕ) → (p : ℕ) → WalkEnd (Option ℕ)
path_items zero mem strings path p = out_of_fuel
path_items (suc fuel) mem strings path p = elim (token (beto32 mem p)) [
  | bad ↦ stopped none
  | end_node ↦ reached p none
  | begin_node ↦ elim (path_node_by (path_items fuel mem strings) fuel mem strings path p) [
    | reached r _ ↦ path_items fuel mem strings path (r + 4)
    | stopped n ↦ stopped n
    | out_of_fuel ↦ out_of_fuel
  ]
  | nop ↦ path_items fuel mem strings path (p + 4)
  | prop ↦ path_items fuel mem strings path (skip_prop mem p + 4)
]

-- `fdt_find_node_path`: nil is `some none`, and without fuel there is `none`.
unfoldable pub find_node_path :
    (fuel : ℕ) → (ℕ → ℕ) → (strings node : ℕ) → (path : List ℕ) → Option (Option ℕ)
find_node_path fuel mem strings node path =
    end_state (path_node_by (path_items fuel mem strings) fuel mem strings path node)
