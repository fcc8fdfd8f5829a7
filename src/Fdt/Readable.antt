-- ===== src/Fdt/Readable.antt =====
-- Names that a search through a tree reads to their ends.
use agatha.Prelude.{ℕ, ◌+◌, ◌<◌, ◌≤◌, ◌≡◌, refl, arith, true, false, List, length, All, All-append}
use agatha.Text.{strcmp}
use agatha.Fdt.{align4, Turn}
use agatha.Fdt.Format.{
  TextAt, Items, finish, padding, property, child, ItemsAt, weight, Entry, entries,
}
use agatha.Fdt.Walk.{text_at-TextAt}
use agatha.Fdt.Find.{when_text}

abbrev pub Readable : (fuel : ℕ) → (ℕ → ℕ) → Entry → Type 0
Readable fuel mem x = TextAt mem x.value.name x.name × (length x.name < fuel)

pub when_text-TextAt :
    {S : Type 0} (fuel : ℕ) (mem : ℕ → ℕ) (wanted : List ℕ) (a : ℕ) (s : List ℕ) (t u : Turn S)
    → TextAt mem a s
    → length s < fuel
    → when_text fuel mem wanted a t u ≡ elim (strcmp wanted s) [ true ↦ t | false ↦ u ]
when_text-TextAt fuel mem wanted a s t u h lt =
    rw (text_at-TextAt fuel mem a s h lt, when_text) refl

pub entries-Readable :
    (items : Items) (fuel : ℕ) (mem : ℕ → ℕ) (strings node p e : ℕ)
    → ItemsAt mem strings p items e
    → weight items ≤ fuel
    → All (Readable fuel mem) (entries node items)
entries-Readable finish fuel mem strings node p e h le = tt
entries-Readable (padding rest) fuel mem strings node p e (w, later) le =
    entries-Readable rest fuel mem strings node (p + 4) e later (omega arith)
entries-Readable (property v name rest) fuel mem strings node p e (w, is, text, later) le = (
  (text, omega arith),
  entries-Readable rest fuel mem strings node (p + 12 + align4 v.len) e later (omega arith),
)
entries-Readable (child a name inner rest) fuel mem strings node p e (w, at, text, q, inside, later)
      le =
    All-append (Readable fuel mem) (entries a inner) (entries node rest)
      (entries-Readable inner fuel mem strings a (p + 4 + align4 (length name + 1)) q inside
        (omega arith))
      (entries-Readable rest fuel mem strings node (q + 4) e later (omega arith))
