-- ===== src/Fdt/Tests.antt =====
-- What the functions of lib/fdt/fdt.c give for the tree of Blob.
use agatha.Prelude.{
  false, ℕ, ◌≢◌, ap, if◌then◌else◌, ◌==◌, ◌+◌, ◌^◌, ◌≤◌, ◌≡◌, refl, arith, true, Option, none, some,
  List, [], ◌∷◌,
}
use agatha.Text.{char_at, strlen, strncmp, strcmp}
use agatha.Fdt.{Property, fdt_check, text_at, beto32, walk_items, fdt_size, root_node, node_name}
use agatha.Fdt.Skip.{skip_node}
use agatha.Fdt.First.{FirstOf}
use agatha.Fdt.Lookup.{
  regs, reg, phandle, got, own_prop, node_property, node_phandle, node_regs, own, looked_up,
}
use agatha.Fdt.Lookups.{node_property-FirstOf}
use agatha.Fdt.Registers.{node_regs-outside}
use agatha.Fdt.Find.{
  device_type_prop, compatible, device_type, find_node_phandle, find_node_compatable,
  find_node_device_type,
}
use agatha.Fdt.Finds.{HasHandle, node_of, find_node_phandle-FirstOf}
use agatha.Fdt.Calls.{StringsAt}
use agatha.Fdt.Callbacks.{Contents, find_node_compatable-called}
use agatha.Fdt.Path.{left_path, path_items, find_node_path}
use agatha.Fdt.Leads.{LedTo, find_node_path-LedTo}
use agatha.Fdt.Driver.{same_driver, fdt_compatable, fdt_compatable-share}
use agatha.Fdt.Reserved.{check_reserved, check_reserved-before_zero}
use agatha.Fdt.Format.{finish, child, Entry, entries}
use agatha.Fdt.Blob.{mem, header, in_root, fdt_check-header, pos, NodeAt-root, in_ab, NodeAt-ab}

fdt_size-blob : fdt_size mem 256 ≡ 259
unfolding fdt_size fdt_check
fdt_size-blob = refl

root_node-blob : root_node mem 256 ≡ some 328
unfolding root_node fdt_check
root_node-blob = refl

node_name-blob : node_name 328 ≡ 332
unfolding node_name
node_name-blob = refl

node_phandle-blob : node_phandle 100 mem 256 352 ≡ some 7
unfolding node_phandle node_property own_prop fdt_check text_at strcmp strncmp strlen
node_phandle-blob = refl

device_types :
    find_node_device_type (λ n s. (true, n ∷ s)) 100 mem 256 (122 ∷ []) [] ≡ some (352 ∷ [])
unfolding find_node_device_type device_type_prop walk_items fdt_check text_at strcmp strncmp strlen
device_types = refl

-- The path "/abc" leads into "ab", with nothing there, and then to "abc".
path-shorter_name :
    find_node_path 100 mem (256 + header.off_dt_strings) 328 (47 ∷ 97 ∷ 98 ∷ 99 ∷ [])
    ≡ some (some 444)
unfolding find_node_path path_items left_path skip_node text_at walk_items
path-shorter_name = refl

node_property-FirstOf_example :
    (o : Option Entry) × (node_property 100 mem 256 352 reg ≡ looked_up (own 352 in_ab) none o)
    × FirstOf (λ x. x.name ≡ reg) (own 352 in_ab) o
node_property-FirstOf_example =
    node_property-FirstOf 100 mem 256 352 reg header (97 ∷ 98 ∷ []) in_ab 440 fdt_check-header
      NodeAt-ab (omega arith) (omega arith) (ground arith)

find_node_phandle-FirstOf_example :
    (o : Option Entry) × (find_node_phandle 100 mem 256 328 7 ≡ some (node_of o))
    × FirstOf (HasHandle mem 7) (entries 328 in_root) o
find_node_phandle-FirstOf_example =
    find_node_phandle-FirstOf 100 mem 256 328 7 header [] in_root 472 fdt_check-header NodeAt-root
      (omega arith) (omega arith)

find_node_path-LedTo_example :
    (o : Option ℕ) × (find_node_path 100 mem
        (256 + header.off_dt_strings)
        328
        (47 ∷ 97 ∷ 98 ∷ 99 ∷ [])
      ≡ some o)
    × LedTo (47 ∷ 97 ∷ 98 ∷ 99 ∷ []) (child 328 [] in_root finish) o
find_node_path-LedTo_example =
    find_node_path-LedTo 100 mem (256 + header.off_dt_strings) 328 (47 ∷ 97 ∷ 98 ∷ 99 ∷ []) []
      in_root 472 NodeAt-root (omega arith) (omega arith)

-- With a size that is below 0 as an `int`, no driver is looked at.
large_drilen : fdt_compatable 100 mem 464 2 464 (2 ^ 31 + 2) ≡ some false
unfolding fdt_compatable same_driver text_at
large_drilen = refl

-- A name that starts with another letter is another one.
other_text : {P : Type 0} (s t : List ℕ) → char_at s ≢ char_at t → s ≡ t → P
other_text s t out e = absurd (out (ap char_at e))

two_strings : StringsAt mem 372 4 ((120 ∷ []) ∷ (121 ∷ []) ∷ [])
two_strings = ((refl, pos, refl), 2, refl, ((refl, pos, refl), 0, refl, refl))

one_string : StringsAt mem 464 2 ((121 ∷ []) ∷ [])
one_string = ((refl, pos, refl), 0, refl, refl)

fdt_compatable-share_example : fdt_compatable 100 mem 372 4 464 2 ≡ some true
unfolding strcmp strncmp strlen
fdt_compatable-share_example =
    fdt_compatable-share ((120 ∷ []) ∷ (121 ∷ []) ∷ []) ((121 ∷ []) ∷ []) 100 mem 372 4 464 2
      two_strings one_string
      (other_text (120 ∷ []) [] (ground arith), (other_text (121 ∷ []) [] (ground arith), tt))
      (other_text (121 ∷ []) [] (ground arith), tt) (omega arith) (omega arith) (omega arith)

check_reserved-before_zero_example : check_reserved 3 mem 256 ≡ some ((4096, 8192) ∷ [])
check_reserved-before_zero_example =
    check_reserved-before_zero 3 mem 256 header ((4096, 8192) ∷ []) fdt_check-header
      (refl, refl, (refl, refl)) (omega arith)

reg_of_ab : node_property 100 mem 256 352 reg ≡ got 16 388
unfolding node_property own_prop fdt_check text_at strcmp strncmp strlen
reg_of_ab = refl

node_regs-outside_example :
    (a : ℕ) × (node_regs 100 mem 256 352 1 ≡ regs (beto32 mem a) (beto32 mem (a + 4)))
    × (388 + 16 ≤ a)
node_regs-outside_example =
    node_regs-outside 100 mem 256 352 1 16 388 reg_of_ab (omega arith) (omega arith) (omega arith)

abbrev contents : Property → List (List ℕ)
contents v = if v.len == 4 then (120 ∷ []) ∷ (121 ∷ []) ∷ [] else (121 ∷ []) ∷ []

data_of_compatible : Contents 100 mem compatible contents (entries 328 in_root)
data_of_compatible = (
  other_text phandle compatible (ground arith),
  (
    λ _. (two_strings, omega arith),
    (
      other_text reg compatible (ground arith),
      (
        other_text device_type compatible (ground arith),
        (other_text phandle compatible (ground arith), (λ _. (one_string, omega arith), tt)),
      ),
    ),
  ),
)

find_node_compatable-called_example :
    find_node_compatable (λ n s. (true, n ∷ s)) 100 mem 256 (121 ∷ []) [] ≡ some (444 ∷ 352 ∷ [])
unfolding strcmp strncmp strlen
find_node_compatable-called_example =
    find_node_compatable-called (λ n s. (true, n ∷ s)) 100 mem 256 (121 ∷ []) [] header [] in_root
      472 contents fdt_check-header NodeAt-root (omega arith) (omega arith) data_of_compatible
