-- ===== src/Fdt/Lookups.antt =====
-- What fdt_node_property of lib/fdt/fdt.c finds in a node.
use agatha.Prelude.{
  ℕ, zero, suc, ◌+◌, ◌<◌, ◌≤◌, ◌≡◌, ◌↔◌, refl, ap, sym, ◌∙◌, subst, arith, Bool, Bool-cases, inl,
  inr, true, false, Option, none, some, List, [], ◌∷◌, length, All,
}
use agatha.Text.{strcmp}
use agatha.Text.Compare.{IsText, strcmp_iff}
use agatha.Fdt.{align4, Header, fdt_check, token, text_at}
use agatha.Fdt.Format.{
  TextAt, Items, finish, padding, property, child, ItemsAt, NodeAt, weight, Entry,
}
use agatha.Fdt.Walk.{text_at-TextAt, first_item-TextAt}
use agatha.Fdt.Skip.{skip_node-NodeAt}
use agatha.Fdt.First.{FirstOf, first, first-FirstOf}
use agatha.Fdt.Lookup.{Lookup, got, starved, own_prop, node_property, own, looked_up}

abbrev named : List ℕ → Entry → Bool
named wanted x = strcmp wanted x.name

looked_up-later :
    (x : Entry) (xs : List Entry) (d : Option ℕ) (o : Option Entry)
    → looked_up (x ∷ xs) d o ≡ looked_up xs (some x.value.data_at) o
looked_up-later x xs d none = refl
looked_up-later x xs d (some y) = refl

looked_up-first :
    (wanted : List ℕ) (x : Entry) (xs : List Entry) (d : Option ℕ) (l : Lookup)
    → l ≡ looked_up xs (some x.value.data_at) (first (named wanted) xs)
    → elim (strcmp wanted x.name) [ true ↦ got x.value.len x.value.data_at | false ↦ l ]
      ≡ looked_up (x ∷ xs) d (first (named wanted) (x ∷ xs))
unfolding first
looked_up-first wanted x xs d l h = elim (Bool-cases (strcmp wanted x.name)) [
  | inl e ↦ rw (e, first) refl
  | inr e ↦ rw (e, first) (h ∙ sym (looked_up-later x xs d (first (named wanted) xs)))
]

own_prop-ItemsAt :
    (items : Items) (fuel : ℕ) (mem : ℕ → ℕ) (strings : ℕ) (wanted : List ℕ) (node p e : ℕ)
    (d : Option ℕ)
    → ItemsAt mem strings p items e
    → weight items ≤ fuel
    → own_prop fuel mem strings wanted p d
      ≡ looked_up (own node items) d (first (named wanted) (own node items))
unfolding own_prop first
own_prop-ItemsAt finish zero mem strings wanted node p e d h le = absurd (omega arith)
own_prop-ItemsAt (padding rest) zero mem strings wanted node p e d h le = absurd (omega arith)
own_prop-ItemsAt (property v name rest) zero mem strings wanted node p e d h le =
    absurd (omega arith)
own_prop-ItemsAt (child a name inner rest) zero mem strings wanted node p e d h le =
    absurd (omega arith)
own_prop-ItemsAt finish (suc fuel) mem strings wanted node p e d (w, at) le =
    rw (ap token w, own_prop) refl
own_prop-ItemsAt (padding rest) (suc fuel) mem strings wanted node p e d (w, later) le =
    rw (ap token w, own_prop)
      (own_prop-ItemsAt rest fuel mem strings wanted node (p + 4) e d later (omega arith))
own_prop-ItemsAt (property v name rest) (suc fuel) mem strings wanted node p e d
      (w, is, text, later) le =
    rw (ap token w, own_prop)
      (subst
        (λ v'.
          elim (text_at fuel mem v'.name) [
            | none ↦ starved
            | some s ↦ elim (strcmp wanted s) [
              | true ↦ got v'.len v'.data_at
              | false ↦
                  own_prop fuel mem strings wanted (p + 8 + align4 v'.len + 4) (some v'.data_at)
            ]
          ]
          ≡ looked_up (own node (property v name rest)) d
              (first (named wanted) (own node (property v name rest))))
        is
        (rw (text_at-TextAt fuel mem v.name name text (omega arith)) (
          looked_up-first wanted (record { node = node; value = v; name = name }) (own node rest) d
            (own_prop fuel mem strings wanted (p + 8 + align4 v.len + 4) (some v.data_at))
            (own_prop-ItemsAt rest fuel mem strings wanted node (p + 8 + align4 v.len + 4) e
              (some v.data_at) (subst (λ x. ItemsAt mem strings x rest e) (omega arith) later)
              (omega arith)))))
own_prop-ItemsAt (child a name inner rest) (suc fuel) mem strings wanted node p e d
      (w, at, text, q, inside, later) le =
    rw (ap token w, own_prop)
      (rw
        (skip_node-NodeAt fuel mem strings p name inner q (w, text, inside) (omega arith)
          (omega arith))
        (own_prop-ItemsAt rest fuel mem strings wanted node (q + 4) e d later (omega arith)))

pub TextAt-IsText : (mem : ℕ → ℕ) (a : ℕ) (s : List ℕ) → TextAt mem a s → IsText s
TextAt-IsText mem a [] h = tt
TextAt-IsText mem a (c ∷ s) (at, pos, later) = (ground arith, TextAt-IsText mem (a + 1) s later)

own-IsText :
    (items : Items) (mem : ℕ → ℕ) (strings node p e : ℕ)
    → ItemsAt mem strings p items e
    → All (λ x. IsText x.name) (own node items)
own-IsText finish mem strings node p e h = tt
own-IsText (padding rest) mem strings node p e (w, later) =
    own-IsText rest mem strings node (p + 4) e later
own-IsText (property v name rest) mem strings node p e (w, is, text, later) = (
  TextAt-IsText mem v.name name text,
  own-IsText rest mem strings node (p + 12 + align4 v.len) e later,
)
own-IsText (child a name inner rest) mem strings node p e (w, at, text, q, inside, later) =
    own-IsText rest mem strings node (q + 4) e later

named_iff :
    (wanted : List ℕ) (xs : List Entry)
    → IsText wanted
    → All (λ x. IsText x.name) xs
    → All (λ x. (named wanted x ≡ true) ↔ (x.name ≡ wanted)) xs
named_iff wanted [] h hs = tt
named_iff wanted (x ∷ xs) h hs =
    let (there, back) = strcmp_iff wanted x.name h hs.0 in
    ((λ e. sym (there e), λ e. back (sym e)), named_iff wanted xs h hs.1)

-- In a tree whose header passes fdt_check, for a node that is in memory with enough fuel for its name
-- and what is in it, fdt_node_property gives the length and data of the first property of the node
-- itself that has the wanted name, whatever nodes lie in it, or -1 where it has none.
pub node_property-FirstOf :
    (fuel : ℕ) (mem : ℕ → ℕ) (dtb node : ℕ) (wanted : List ℕ) (head : Header) (name : List ℕ)
    (items : Items) (e : ℕ)
    → fdt_check mem dtb ≡ some head
    → NodeAt mem (dtb + head.off_dt_strings) node name items e
    → length name < fuel
    → weight items ≤ fuel
    → IsText wanted
    → (o : Option Entry) × (node_property fuel mem dtb node wanted
        ≡ looked_up (own node items) none o)
      × FirstOf (λ x. x.name ≡ wanted) (own node items) o
unfolding node_property
node_property-FirstOf fuel mem dtb node wanted head name items e is (w, text, later) lt le
      text_wanted =
    let strings = dtb + head.off_dt_strings in
    let p = node + 4 + align4 (length name + 1) in
    (
      first (named wanted) (own node items),
      rw (is, node_property)
          (rw (first_item-TextAt fuel mem node name text lt)
            (own_prop-ItemsAt items fuel mem strings wanted node p e none later le)),
      first-FirstOf (λ x. x.name ≡ wanted) (named wanted) (own node items)
          (named_iff wanted (own node items) text_wanted
            (own-IsText items mem strings node p e later)),
    )
