-- ===== src/Fdt/Leads.antt =====
-- Where a path leads to, said of names and paths as lists, and that fdt_find_node_path of lib/fdt/fdt.c
-- goes there.
use agatha.Prelude.{
  ℕ, ◌<◌, ◌≤◌, ◌≡◌, ◌≢◌, ◌⊎◌, inl, inr, refl, ap, arith, Bool-cases, ==_iff, ◌==◌, Option, none,
  some, List, [], ◌∷◌, ◌++◌, length, All,
}
use agatha.Fdt.Format.{Items, finish, padding, property, child, NodeAt, weight}
use agatha.Fdt.Path.{Choice, leave_out, here, inside, left_path, choice_at, find_node_path}
use agatha.Fdt.Paths.{or_else, led_to, child_by, find_node_path-led_to}

-- No character is '/'.
abbrev pub NoSlash : List ℕ → Type 0
NoSlash s = All (λ c. c ≢ 47) s

-- They differ at a character before the '/' of the path and before either ends.
abbrev pub Differs : (name path : List ℕ) → Type 0
Differs name path =
    (both : List ℕ) × (c : ℕ) × (d : ℕ) × (n : List ℕ) × (p : List ℕ) × (name ≡ both ++ (c ∷ n))
    × (path ≡ both ++ (d ∷ p))
    × (c ≢ d)
    × (d ≢ 47)
    × NoSlash both

-- The path is the beginning of the name, and has no '/'.
abbrev pub Ends : (name path : List ℕ) → Type 0
Ends name path = (n : List ℕ) × (name ≡ path ++ n) × NoSlash path

-- The path up to its '/' is the beginning of the name, or the name ends within it and one more character
-- is dropped; `p` is what is left.
abbrev pub Enters : (name path p : List ℕ) → Type 0
Enters name path p =
    ((both : List ℕ) × (n : List ℕ) × (name ≡ both ++ n) × (path ≡ both ++ (47 ∷ p)) × NoSlash both)
    ⊎ ((d : ℕ) × (path ≡ name ++ (d ∷ p)) × (d ≢ 47) × NoSlash name)

-- The path leads to the node `o` below these items, or to none.
abbrev pub LedTo : (path : List ℕ) → Items → (o : Option ℕ) → Type 0
LedTo path finish o = o ≡ none
LedTo path (padding rest) o = LedTo path rest o
LedTo path (property v name rest) o = LedTo path rest o
LedTo path (child a name inner rest) o =
    (Differs name path × LedTo path rest o)
    ⊎ ((Ends name path × (o ≡ some a))
        ⊎ ((p : List ℕ) × (o₁ : Option ℕ) × (o₂ : Option ℕ) × Enters name path p
            × LedTo p inner o₁
            × LedTo path rest o₂
            × (o ≡ or_else o₁ o₂)))

abbrev Chosen : (name path : List ℕ) → Choice → Type 0
Chosen name path leave_out = Differs name path
Chosen name path here = Ends name path
Chosen name path (inside p) = Enters name path p

-- A character that they share, in front.
Chosen-cons :
    (c d : ℕ) (name path : List ℕ) (ch : Choice)
    → c ≡ d
    → d ≢ 47
    → Chosen name path ch
    → Chosen (c ∷ name) (d ∷ path) ch
Chosen-cons c d name path leave_out e k (both, x, y, n, p, en, ep, ne, no_slash, h) =
    (d ∷ both, x, y, n, p, cc, cc, ne, no_slash, (k, h))
Chosen-cons c d name path here e k (n, en, h) = (n, cc, (k, h))
Chosen-cons c d name path (inside p) e k (inl (both, n, en, ep, h)) =
    inl (d ∷ both, n, cc, cc, (k, h))
Chosen-cons c d name path (inside p) e k (inr (x, ep, ne, h)) = inr (x, cc, ne, (ground arith, h))

choice_at-Chosen : (name path : List ℕ) → Chosen name path (choice_at name path)
unfolding left_path
choice_at-Chosen [] [] = ([], refl, tt)
choice_at-Chosen [] (d ∷ path) = elim (Bool-cases (d == 47)) [
  | inl e ↦ inl ([], [], refl, ap (λ x. x ∷ path) ((==_iff d 47).0 e), tt)
  | inr e ↦ inr (d, refl, ground arith, tt)
]
choice_at-Chosen (c ∷ name) [] = (c ∷ name, refl, tt)
choice_at-Chosen (c ∷ name) (d ∷ path) = elim (Bool-cases (d == 47)) [
  | inl e ↦ rw (e, left_path) (inl ([], c ∷ name, refl, ap (λ x. x ∷ path) ((==_iff d 47).0 e), tt))
  | inr e ↦ elim (Bool-cases (c == d)) [
    | inl k ↦
        rw (e, left_path)
          (rw (k, left_path)
            (Chosen-cons c d name path (choice_at name path) ((==_iff c d).0 k) (ground arith)
              (choice_at-Chosen name path)))
    | inr k ↦
        rw (e, left_path)
          (rw (k, left_path) ([], c, d, name, path, refl, refl, ground arith, ground arith, tt))
  ]
]

child_by-LedTo :
    (c : Choice) (path : List ℕ) (a : ℕ) (name : List ℕ) (inner rest : Items)
    → Chosen name path c
    → ((p : List ℕ) → LedTo p inner (led_to p inner))
    → LedTo path rest (led_to path rest)
    → LedTo path (child a name inner rest) (child_by c a (λ p. led_to p inner) (led_to path rest))
child_by-LedTo leave_out path a name inner rest h i r = inl (h, r)
child_by-LedTo here path a name inner rest h i r = inr (inl (h, refl))
child_by-LedTo (inside p) path a name inner rest h i r =
    inr (inr (p, led_to p inner, led_to path rest, h, i p, r, refl))

led_to-LedTo : (items : Items) (path : List ℕ) → LedTo path items (led_to path items)
unfolding led_to
led_to-LedTo finish path = refl
led_to-LedTo (padding rest) path = led_to-LedTo rest path
led_to-LedTo (property v name rest) path = led_to-LedTo rest path
led_to-LedTo (child a name inner rest) path =
    child_by-LedTo (choice_at name path) path a name inner rest (choice_at-Chosen name path)
      (λ p. led_to-LedTo inner p) (led_to-LedTo rest path)

-- For a node that is in memory with enough fuel for its name and what is in it, fdt_find_node_path
-- ends, and from the node on leaves out a node whose name differs from the path at a character before
-- either ends and before the next / of the path, returns one whose name begins with the path where the
-- path has no /, and looks in any other for what is left of the path behind its /, or behind one more
-- character where the name ends before, and then in the nodes after it; it returns nil where this
-- leads to no node.
pub find_node_path-LedTo :
    (fuel : ℕ) (mem : ℕ → ℕ) (strings node : ℕ) (path name : List ℕ) (items : Items) (e : ℕ)
    → NodeAt mem strings node name items e
    → length name < fuel
    → weight items ≤ fuel
    → (o : Option ℕ) × (find_node_path fuel mem strings node path ≡ some o)
      × LedTo path (child node name items finish) o
find_node_path-LedTo fuel mem strings node path name items e h lt le = (
  led_to path (child node name items finish),
  find_node_path-led_to fuel mem strings node path name items e h lt le,
  led_to-LedTo (child node name items finish) path,
)
