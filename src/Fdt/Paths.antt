-- ===== src/Fdt/Paths.antt =====
-- The node that fdt_find_node_path of lib/fdt/fdt.c finds.
use agatha.Prelude.{
  ℕ, zero, suc, ◌+◌, ◌<◌, ◌≤◌, ◌≡◌, refl, sym, ap, ◌∙◌, subst, arith, Option, none, some, List,
  length,
}
use agatha.Fdt.{align4, token, skip_prop, WalkEnd, reached, stopped, out_of_fuel}
use agatha.Fdt.Format.{Items, finish, padding, property, child, ItemsAt, NodeAt, weight}
use agatha.Fdt.Walk.{text_at-TextAt}
use agatha.Fdt.Skip.{skip_node, skip_node-NodeAt}
use agatha.Fdt.Find.{end_state}
use agatha.Fdt.Path.{
  Choice, leave_out, here, inside, choice_at, path_node_by, path_items, find_node_path,
}

abbrev pub or_else : Option ℕ → Option ℕ → Option ℕ
or_else none rest = rest
or_else (some n) rest = some n

-- The node that the search ends at, over the tree instead of the memory.
unfoldable pub led_to : (path : List ℕ) → Items → Option ℕ
led_to path finish = none
led_to path (padding rest) = led_to path rest
led_to path (property v name rest) = led_to path rest
led_to path (child a name inner rest) = elim (choice_at name path) [
  | leave_out ↦ led_to path rest
  | here ↦ some a
  | inside path' ↦ or_else (led_to path' inner) (led_to path rest)
]

-- What a loop that ends at `e` comes to.
abbrev ending : (e : ℕ) → Option ℕ → WalkEnd (Option ℕ)
ending e none = reached e none
ending e (some n) = stopped (some n)

abbrev then_items :
    (fuel : ℕ) → (ℕ → ℕ) → (strings : ℕ) → (path : List ℕ) → WalkEnd (Option ℕ) → WalkEnd (Option ℕ)
then_items fuel mem strings path w = elim w [
  | reached r _ ↦ path_items fuel mem strings path (r + 4)
  | stopped n ↦ stopped n
  | out_of_fuel ↦ out_of_fuel
]

-- The choice at a node inside.
abbrev pub child_by : Choice → (a : ℕ) → (inner : List ℕ → Option ℕ) → (rest : Option ℕ) → Option ℕ
child_by c a inner rest = elim c [
  | leave_out ↦ rest
  | here ↦ some a
  | inside path ↦ or_else (inner path) rest
]

then_items-ending :
    (fuel : ℕ) (mem : ℕ → ℕ) (strings : ℕ) (path : List ℕ) (q e : ℕ) (o rest : Option ℕ)
    → path_items fuel mem strings path (q + 4) ≡ ending e rest
    → then_items fuel mem strings path (ending q o) ≡ ending e (or_else o rest)
then_items-ending fuel mem strings path q e none rest h = h
then_items-ending fuel mem strings path q e (some n) rest h = refl

node_choice :
    (c : Choice) (fuel : ℕ) (mem : ℕ → ℕ) (strings : ℕ) (p start q : ℕ) (inner : List ℕ → Option ℕ)
    → skip_node fuel mem strings p ≡ reached q tt
    → ((path : List ℕ) → path_items fuel mem strings path start ≡ ending q (inner path))
    → elim c [
      | leave_out ↦ elim (skip_node fuel mem strings p) [
        | reached e _ ↦ reached e none
        | stopped _ ↦ stopped none
        | out_of_fuel ↦ out_of_fuel
      ]
      | here ↦ stopped (some p)
      | inside rest ↦ path_items fuel mem strings rest start
    ]
      ≡ ending q (child_by c p inner none)
node_choice leave_out fuel mem strings p start q inner skip h = rw skip refl
node_choice here fuel mem strings p start q inner skip h = refl
node_choice (inside path) fuel mem strings p start q inner skip h =
    h path ∙ ap (ending q) (or_none (inner path))
  where
    or_none : (o : Option ℕ) → o ≡ or_else o none
    or_none none = refl
    or_none (some n) = refl

path_node-NodeAt :
    (fuel : ℕ) (mem : ℕ → ℕ) (strings : ℕ) (path : List ℕ) (p : ℕ) (name : List ℕ) (items : Items)
    (q : ℕ)
    → NodeAt mem strings p name items q
    → length name < fuel
    → weight items ≤ fuel
    → ((path' : List ℕ)
        → path_items fuel mem strings path' (p + 4 + align4 (length name + 1))
          ≡ ending q (led_to path' items))
    → path_node_by (path_items fuel mem strings) fuel mem strings path p
      ≡ ending q (child_by (choice_at name path) p (λ path'. led_to path' items) none)
path_node-NodeAt fuel mem strings path p name items q h lt le loop =
    rw (text_at-TextAt fuel mem (p + 4) name h.1 lt, path_node_by)
      (node_choice (choice_at name path) fuel mem strings p (p + 4 + align4 (length name + 1)) q
        (λ path'. led_to path' items) (skip_node-NodeAt fuel mem strings p name items q h lt le)
        loop)

child_by-rest :
    (c : Choice) (a : ℕ) (inner : List ℕ → Option ℕ) (rest : Option ℕ)
    → or_else (child_by c a inner none) rest ≡ child_by c a inner rest
child_by-rest leave_out a inner rest = refl
child_by-rest here a inner rest = refl
child_by-rest (inside path) a inner rest = go (inner path)
  where
    go : (o : Option ℕ) → or_else (or_else o none) rest ≡ or_else o rest
    go none = refl
    go (some n) = refl

path_items-ItemsAt :
    (items : Items) (fuel : ℕ) (mem : ℕ → ℕ) (strings : ℕ) (path : List ℕ) (p e : ℕ)
    → ItemsAt mem strings p items e
    → weight items ≤ fuel
    → path_items fuel mem strings path p ≡ ending e (led_to path items)
unfolding path_items led_to
path_items-ItemsAt finish zero mem strings path p e h le = absurd (omega arith)
path_items-ItemsAt (padding rest) zero mem strings path p e h le = absurd (omega arith)
path_items-ItemsAt (property v name rest) zero mem strings path p e h le = absurd (omega arith)
path_items-ItemsAt (child a name inner rest) zero mem strings path p e h le = absurd (omega arith)
path_items-ItemsAt finish (suc fuel) mem strings path p e (w, at) le =
    rw (ap token w, path_items) (ap (λ x. reached x none) at)
path_items-ItemsAt (padding rest) (suc fuel) mem strings path p e (w, later) le =
    rw (ap token w, path_items)
      (path_items-ItemsAt rest fuel mem strings path (p + 4) e later (omega arith))
path_items-ItemsAt (property v name rest) (suc fuel) mem strings path p e (w, is, text, later) le =
    let next : p + 12 + align4 v.len ≡ skip_prop mem p + 4 =
      subst (λ x. p + 12 + align4 x ≡ skip_prop mem p + 4) (sym (ap (λ x. x.len) is))
        (omega arith) in
    rw (ap token w, path_items)
      (path_items-ItemsAt rest fuel mem strings path (skip_prop mem p + 4) e
        (subst (λ x. ItemsAt mem strings x rest e) next later) (omega arith))
path_items-ItemsAt (child a name inner rest) (suc fuel) mem strings path p e
      (w, at, text, q, within, later) le =
    let node =
      path_node-NodeAt fuel mem strings path p name inner q (w, text, within) (omega arith)
        (omega arith)
        (λ path'.
          path_items-ItemsAt inner fuel mem strings path' (p + 4 + align4 (length name + 1)) q
            within (omega arith)) in
    rw (ap token w, path_items)
      (rw node (
        then_items-ending fuel mem strings path q e
          (child_by (choice_at name path) p (λ path'. led_to path' inner) none) (led_to path rest)
          (path_items-ItemsAt rest fuel mem strings path (q + 4) e later (omega arith))
        ∙ ap (ending e) (
            child_by-rest (choice_at name path) p (λ path'. led_to path' inner) (led_to path rest)
            ∙ ap
                (λ x.
                  child_by (choice_at name path) x (λ path'. led_to path' inner) (led_to path rest))
                (sym at))))

state-ending : (e : ℕ) (o : Option ℕ) → end_state (ending e o) ≡ some o
state-ending e none = refl
state-ending e (some n) = refl

-- For a node that is in memory with enough fuel for its name and what is in it, fdt_find_node_path
-- finds the node that a search through the tree finds, which leaves out a node whose name differs from
-- the path before either ends, takes the first whose name goes along with the path to its end, and
-- looks for what is left of the path in the others.
pub find_node_path-led_to :
    (fuel : ℕ) (mem : ℕ → ℕ) (strings node : ℕ) (path name : List ℕ) (items : Items) (e : ℕ)
    → NodeAt mem strings node name items e
    → length name < fuel
    → weight items ≤ fuel
    → find_node_path fuel mem strings node path ≡ some (led_to path (child node name items finish))
unfolding find_node_path led_to
find_node_path-led_to fuel mem strings node path name items e h lt le =
    rw
      (
        path_node-NodeAt fuel mem strings path node name items e h lt le (λ path'.
            path_items-ItemsAt items fuel mem strings path' (node + 4 + align4 (length name + 1)) e
              h.2 le),
        find_node_path,
      )
      (state-ending e (child_by (choice_at name path) node (λ path'. led_to path' items) none))
