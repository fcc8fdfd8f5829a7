-- ===== src/Fdt/Skip.antt =====
-- `fdt_skip_node` of lib/fdt/fdt.c, which goes over a node and leaves out what is in it.
use agatha.Prelude.{ℕ, ◌+◌, ◌<◌, ◌≤◌, ◌≡◌, refl, List, [], ◌∷◌, length}
use agatha.Fdt.{align4, Property, Turn, on, WalkEnd, reached, walk_node}
use agatha.Fdt.Format.{Items, NodeAt, weight, Entry, entries}
use agatha.Fdt.Walk.{first_item-TextAt, run, outcome, walk-ItemsAt}

abbrev pass : (node : ℕ) → Property → (Unit {0}) → Turn (Unit {0})
pass node v s = on s

-- `fdt_skip_node`, which does not look at the `strings`.
unfoldable pub skip_node : (fuel : ℕ) → (ℕ → ℕ) → (strings node : ℕ) → WalkEnd (Unit {0})
skip_node fuel mem strings node = walk_node pass fuel mem strings node tt

module _ {S : Type 0} (act : (node : ℕ) → Property → S → Turn S) where
  pub walk_node-NodeAt :
      (fuel : ℕ) (mem : ℕ → ℕ) (strings a : ℕ) (name : List ℕ) (items : Items) (e : ℕ) (s : S)
      → NodeAt mem strings a name items e
      → length name < fuel
      → weight items ≤ fuel
      → walk_node act fuel mem strings a s ≡ outcome act e (run act (entries a items) s)
  walk_node-NodeAt fuel mem strings a name items e s (w, text, later) lt le =
      rw (first_item-TextAt fuel mem a name text lt, walk_node)
        (walk-ItemsAt act items fuel mem strings a (a + 4 + align4 (length name + 1)) e s later le)

run-pass : (xs : List Entry) → run pass xs tt ≡ on tt
run-pass [] = refl
run-pass (x ∷ xs) = run-pass xs

-- On a node in memory with enough fuel for what is in it, fdt_skip_node gives the end of the node.
pub skip_node-NodeAt :
    (fuel : ℕ) (mem : ℕ → ℕ) (strings a : ℕ) (name : List ℕ) (items : Items) (e : ℕ)
    → NodeAt mem strings a name items e
    → length name < fuel
    → weight items ≤ fuel
    → skip_node fuel mem strings a ≡ reached e tt
unfolding skip_node
skip_node-NodeAt fuel mem strings a name items e h lt le =
    rw (walk_node-NodeAt pass fuel mem strings a name items e tt h lt le, skip_node)
      (rw (run-pass (entries a items)) refl)
