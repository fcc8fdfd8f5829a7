-- ===== src/Fdt/Finds.antt =====
-- The node that fdt_find_node_phandle of lib/fdt/fdt.c finds.
use agatha.Prelude.{
  ℕ, ◌+◌, ◌<◌, ◌≤◌, ◌≡◌, ◌↔◌, refl, sym, arith, Bool, Bool-cases, ==_iff, inl, inr, true, false,
  true-ne-false, ◌&&◌, ◌==◌, Option, none, some, List, [], ◌∷◌, length, All,
}
use agatha.Text.{strcmp}
use agatha.Text.Compare.{strcmp_iff}
use agatha.Fdt.{beto32, align4, Header, fdt_check, Property, Turn, on, halt}
use agatha.Fdt.Format.{Items, NodeAt, weight, Entry, entries}
use agatha.Fdt.Walk.{text_at-TextAt, run, outcome}
use agatha.Fdt.Skip.{walk_node-NodeAt}
use agatha.Fdt.First.{FirstOf, first, first-FirstOf}
use agatha.Fdt.Lookup.{phandle}
use agatha.Fdt.Lookups.{TextAt-IsText}
use agatha.Fdt.Find.{when_text, end_state, phandle_prop, find_node_phandle}
use agatha.Fdt.Readable.{Readable, entries-Readable}

-- The property that the search is for.
abbrev pub HasHandle : (ℕ → ℕ) → (handle : ℕ) → Entry → Type 0
HasHandle mem handle x = (x.name ≡ phandle) × (beto32 mem x.value.data_at ≡ handle)

abbrev has_handle : (ℕ → ℕ) → (handle : ℕ) → Entry → Bool
has_handle mem handle x = strcmp phandle x.name && (beto32 mem x.value.data_at == handle)

abbrev pub node_of : Option Entry → Option ℕ
node_of none = none
node_of (some x) = some x.node

abbrev stop_at : Option Entry → Turn (Option ℕ)
stop_at none = on none
stop_at (some x) = halt (some x.node)

and_left : (a b : Bool) → (a && b) ≡ true → a ≡ true
and_left true b h = refl
and_left false b h = absurd (true-ne-false (sym h))

and_right : (a b : Bool) → (a && b) ≡ true → b ≡ true
and_right true b h = h
and_right false b h = absurd (true-ne-false (sym h))

both : (a b : Bool) → a ≡ true → b ≡ true → (a && b) ≡ true
both a b e f = rw (e, f) refl

phandle_prop-Readable :
    (fuel : ℕ) (mem : ℕ → ℕ) (handle : ℕ) (x : Entry) (s : Option ℕ)
    → Readable fuel mem x
    → phandle_prop fuel mem handle x.node x.value s
      ≡ elim (has_handle mem handle x) [ true ↦ halt (some x.node) | false ↦ on s ]
unfolding phandle_prop
phandle_prop-Readable fuel mem handle x s h =
    rw (text_at-TextAt fuel mem x.value.name x.name h.0 h.1, phandle_prop, when_text)
      (elim (Bool-cases (strcmp phandle x.name)) [ inr e ↦ rw e refl | inl e ↦ rw e refl ])

run-phandle :
    (fuel : ℕ) (mem : ℕ → ℕ) (handle : ℕ) (xs : List Entry)
    → All (Readable fuel mem) xs
    → run (phandle_prop fuel mem handle) xs none ≡ stop_at (first (has_handle mem handle) xs)
unfolding first
run-phandle fuel mem handle [] h = refl
run-phandle fuel mem handle (x ∷ xs) h =
    rw (phandle_prop-Readable fuel mem handle x none h.0, run)
      (elim (Bool-cases (has_handle mem handle x)) [
        | inr e ↦ rw (e, first) (run-phandle fuel mem handle xs h.1)
        | inl e ↦ rw (e, first) refl
      ])

has_handle_iff :
    (fuel : ℕ) (mem : ℕ → ℕ) (handle : ℕ) (xs : List Entry)
    → All (Readable fuel mem) xs
    → All (λ x. (has_handle mem handle x ≡ true) ↔ HasHandle mem handle x) xs
has_handle_iff fuel mem handle [] h = tt
has_handle_iff fuel mem handle (x ∷ xs) h =
    let (there, back) =
      strcmp_iff phandle x.name (ground arith) (TextAt-IsText mem x.value.name x.name h.0.0) in
    let (is, from) = ==_iff (beto32 mem x.value.data_at) handle in
    (
      (
        λ e. (
          sym (there (and_left (strcmp phandle x.name) (beto32 mem x.value.data_at == handle) e)),
          is (and_right (strcmp phandle x.name) (beto32 mem x.value.data_at == handle) e),
        ),
        λ has.
            both (strcmp phandle x.name) (beto32 mem x.value.data_at == handle) (back (sym has.0))
              (from has.1),
      ),
      has_handle_iff fuel mem handle xs h.1,
    )

state-stop_at :
    (e : ℕ) (act : (node : ℕ) → Property → Option ℕ → Turn (Option ℕ)) (o : Option Entry)
    → end_state (outcome act e (stop_at o)) ≡ some (node_of o)
state-stop_at e act none = refl
state-stop_at e act (some x) = refl

-- In a tree whose header passes fdt_check, from a node that is in memory with enough fuel for its name
-- and what is in it, fdt_find_node_phandle returns the node of the first property "phandle" with the
-- handle, in the order of the tree, among those of the node and of all nodes below it, or nil where
-- there is none.
pub find_node_phandle-FirstOf :
    (fuel : ℕ) (mem : ℕ → ℕ) (dtb node handle : ℕ) (head : Header) (name : List ℕ) (items : Items)
    (e : ℕ)
    → fdt_check mem dtb ≡ some head
    → NodeAt mem (dtb + head.off_dt_strings) node name items e
    → length name < fuel
    → weight items ≤ fuel
    → (o : Option Entry) × (find_node_phandle fuel mem dtb node handle ≡ some (node_of o))
      × FirstOf (HasHandle mem handle) (entries node items) o
unfolding find_node_phandle
find_node_phandle-FirstOf fuel mem dtb node handle head name items e is h lt le =
    let act = phandle_prop fuel mem handle in
    let readable =
      entries-Readable items fuel mem (dtb + head.off_dt_strings) node
        (node + 4 + align4 (length name + 1)) e h.2 le in
    (
      first (has_handle mem handle) (entries node items),
      rw (is, find_node_phandle)
          (rw
            (walk_node-NodeAt act fuel mem (dtb + head.off_dt_strings) node name items e none h lt
              le)
            (rw (run-phandle fuel mem handle (entries node items) readable)
              (state-stop_at e act (first (has_handle mem handle) (entries node items))))),
      first-FirstOf (HasHandle mem handle) (has_handle mem handle) (entries node items)
          (has_handle_iff fuel mem handle (entries node items) readable),
    )
