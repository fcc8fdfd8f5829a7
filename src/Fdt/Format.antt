-- ===== src/Fdt/Format.antt =====
-- The format of a tree in memory, and what is in it, in the order in which it stands there.
use agatha.Prelude.{ℕ, suc, ◌+◌, ◌<◌, ◌≡◌, List, [], ◌∷◌, ◌++◌, length}
use agatha.Fdt.{beto32, align4, Property}

-- The string `s`, with the 0 that ends it.
abbrev pub TextAt : (ℕ → ℕ) → ℕ → List ℕ → Type 0
TextAt mem a [] = mem a ≡ 0
TextAt mem a (c ∷ s) = (mem a ≡ c) × (0 < c) × TextAt mem (a + 1) s

-- What is in a node: properties with their names, and nodes with their addresses, names and what is in
-- them.
pub data Items : Type 0 where
  finish : Items
  padding : (rest : Items) → Items
  property : (v : Property) (name : List ℕ) (rest : Items) → Items
  child : (a : ℕ) (name : List ℕ) (inner rest : Items) → Items

-- From `p` on there are these, and the end of the node is at `e`.
abbrev pub ItemsAt : (ℕ → ℕ) → (strings p : ℕ) → Items → (e : ℕ) → Type 0
ItemsAt mem strings p finish e = (beto32 mem p ≡ 2) × (p ≡ e)
ItemsAt mem strings p (padding rest) e = (beto32 mem p ≡ 4) × ItemsAt mem strings (p + 4) rest e
ItemsAt mem strings p (property v name rest) e =
    (beto32 mem p ≡ 3)
    × (v ≡ record {
      name = strings + beto32 mem (p + 8);
      data_at = p + 12;
      len = beto32 mem (p + 4);
    })
    × TextAt mem v.name name
    × ItemsAt mem strings (p + 12 + align4 v.len) rest e
ItemsAt mem strings p (child a name inner rest) e =
    (beto32 mem p ≡ 1)
    × (a ≡ p)
    × TextAt mem (p + 4) name
    × (q : ℕ) × ItemsAt mem strings (p + 4 + align4 (length name + 1)) inner q
    × ItemsAt mem strings (q + 4) rest e

-- The node at `a`.
abbrev pub NodeAt : (ℕ → ℕ) → (strings a : ℕ) → (name : List ℕ) → Items → (e : ℕ) → Type 0
NodeAt mem strings a name items e =
    (beto32 mem a ≡ 1)
    × TextAt mem (a + 4) name
    × ItemsAt mem strings (a + 4 + align4 (length name + 1)) items e

-- How much fuel it takes to go over them.
abbrev pub weight : Items → ℕ
weight finish = 1
weight (padding rest) = suc (weight rest)
weight (property v name rest) = suc (suc (length name) + weight rest)
weight (child a name inner rest) = suc (suc (length name) + weight inner + weight rest)

-- A property of a node.
pub record Entry : Type 0 where
  pub node : ℕ
  pub value : Property
  pub name : List ℕ

abbrev pub entries : (node : ℕ) → Items → List Entry
entries node finish = []
entries node (padding rest) = entries node rest
entries node (property v name rest) =
    record { node = node; value = v; name = name } ∷ entries node rest
entries node (child a name inner rest) = entries a inner ++ entries node rest
