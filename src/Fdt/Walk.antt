-- ===== src/Fdt/Walk.antt =====
-- A walk_items over a tree is a walk_items over its properties in their order.
use agatha.Prelude.{
  ℕ, zero, suc, ◌+◌, ◌<◌, ◌≤◌, ◌≡◌, refl, sym, ap, subst, arith, true, false, ◌==◌, List, [], ◌∷◌,
  ◌++◌, length, some,
}
use agatha.Fdt.{
  align4, token, text_at, Property, skip_prop, first_item, Turn, on, halt, no_fuel, WalkEnd,
  reached, stopped, out_of_fuel, walk_items,
}
use agatha.Fdt.Format.{
  TextAt, Items, finish, padding, property, child, ItemsAt, weight, Entry, entries,
}

pub text_at-TextAt :
    (fuel : ℕ) (mem : ℕ → ℕ) (a : ℕ) (s : List ℕ)
    → TextAt mem a s
    → length s < fuel
    → text_at fuel mem a ≡ some s
unfolding text_at
text_at-TextAt zero mem a s h lt = absurd (omega arith)
text_at-TextAt (suc fuel) mem a [] h lt =
    let e : (mem a == 0) ≡ true = ground arith in rw (e, text_at) refl
text_at-TextAt (suc fuel) mem a (c ∷ s) (at, pos, later) lt =
    let e : (mem a == 0) ≡ false = ground arith in
    rw (e, text_at)
      (rw (text_at-TextAt fuel mem (a + 1) s later (omega arith)) (ap (λ x. some (x ∷ s)) at))

module _ {S : Type 0} (act : (node : ℕ) → Property → S → Turn S) where
  -- `act` on the properties, one after another.
  abbrev pub run : List Entry → S → Turn S
  run [] s = on s
  run (x ∷ xs) s = elim (act x.node x.value s) [
    | on s' ↦ run xs s'
    | halt s' ↦ halt s'
    | no_fuel ↦ no_fuel
  ]

  -- What the walk over a node that ends at `e` comes to.
  abbrev pub outcome : (e : ℕ) → Turn S → WalkEnd S
  outcome e (on s) = reached e s
  outcome e (halt s) = stopped s
  outcome e no_fuel = out_of_fuel

  abbrev go_on : List Entry → Turn S → Turn S
  go_on xs (on s) = run xs s
  go_on xs (halt s) = halt s
  go_on xs no_fuel = no_fuel

  go_on-step :
      (xs ys : List Entry) (t : Turn S)
      → ((s : S) → run (xs ++ ys) s ≡ go_on ys (run xs s))
      → elim t [ on s' ↦ run (xs ++ ys) s' | halt s' ↦ halt s' | no_fuel ↦ no_fuel ]
        ≡ go_on ys (elim t [ on s' ↦ run xs s' | halt s' ↦ halt s' | no_fuel ↦ no_fuel ])
  go_on-step xs ys (on s) h = h s
  go_on-step xs ys (halt s) h = refl
  go_on-step xs ys no_fuel h = refl

  run-append : (xs ys : List Entry) (s : S) → run (xs ++ ys) s ≡ go_on ys (run xs s)
  run-append [] ys s = refl
  run-append (x ∷ xs) ys s = go_on-step xs ys (act x.node x.value s) (λ s'. run-append xs ys s')

  -- What follows on the walk over a node inside of this one.
  abbrev next_child : (fuel : ℕ) → (ℕ → ℕ) → (strings node : ℕ) → WalkEnd S → WalkEnd S
  next_child fuel mem strings node w = elim w [
    | reached r s ↦ walk_items act fuel mem strings node (r + 4) s
    | stopped s ↦ stopped s
    | out_of_fuel ↦ out_of_fuel
  ]

  next_child-outcome :
      (fuel : ℕ) (mem : ℕ → ℕ) (strings node q e : ℕ) (xs : List Entry)
      → ((s : S) → walk_items act fuel mem strings node (q + 4) s ≡ outcome e (run xs s))
      → (t : Turn S) → next_child fuel mem strings node (outcome q t) ≡ outcome e (go_on xs t)
  next_child-outcome fuel mem strings node q e xs h (on s) = h s
  next_child-outcome fuel mem strings node q e xs h (halt s) = refl
  next_child-outcome fuel mem strings node q e xs h no_fuel = refl

  next_prop-outcome :
      (fuel : ℕ) (mem : ℕ → ℕ) (strings node q e : ℕ) (xs : List Entry)
      → ((s : S) → walk_items act fuel mem strings node q s ≡ outcome e (run xs s))
      → (t : Turn S)
      → elim t [
        | on s ↦ walk_items act fuel mem strings node q s
        | halt s ↦ stopped s
        | no_fuel ↦ out_of_fuel
      ]
        ≡ outcome e (elim t [ on s ↦ run xs s | halt s ↦ halt s | no_fuel ↦ no_fuel ])
  next_prop-outcome fuel mem strings node q e xs h (on s) = h s
  next_prop-outcome fuel mem strings node q e xs h (halt s) = refl
  next_prop-outcome fuel mem strings node q e xs h no_fuel = refl

pub first_item-TextAt :
    (fuel : ℕ) (mem : ℕ → ℕ) (a : ℕ) (s : List ℕ)
    → TextAt mem (a + 4) s
    → length s < fuel
    → first_item fuel mem a ≡ some (a + 4 + align4 (length s + 1))
first_item-TextAt fuel mem a s h lt = rw (text_at-TextAt fuel mem (a + 4) s h lt, first_item) refl

module _ {S : Type 0} (act : (node : ℕ) → Property → S → Turn S) where
  pub walk-ItemsAt :
      (items : Items) (fuel : ℕ) (mem : ℕ → ℕ) (strings node p e : ℕ) (s : S)
      → ItemsAt mem strings p items e
      → weight items ≤ fuel
      → walk_items act fuel mem strings node p s ≡ outcome act e (run act (entries node items) s)
  unfolding walk_items
  walk-ItemsAt finish zero mem strings node p e s h le = absurd (omega arith)
  walk-ItemsAt (padding rest) zero mem strings node p e s h le = absurd (omega arith)
  walk-ItemsAt (property v name rest) zero mem strings node p e s h le = absurd (omega arith)
  walk-ItemsAt (child a name inner rest) zero mem strings node p e s h le = absurd (omega arith)
  walk-ItemsAt finish (suc fuel) mem strings node p e s (w, at) le =
      rw (ap token w, walk_items) (ap (λ x. reached x s) at)
  walk-ItemsAt (padding rest) (suc fuel) mem strings node p e s (w, later) le =
      rw (ap token w, walk_items)
        (walk-ItemsAt rest fuel mem strings node (p + 4) e s later (omega arith))
  walk-ItemsAt (property v name rest) (suc fuel) mem strings node p e s (w, is, text, later) le =
      let next : p + 12 + align4 v.len ≡ skip_prop mem p + 4 =
        subst (λ x. p + 12 + align4 x ≡ skip_prop mem p + 4) (sym (ap (λ x. x.len) is))
          (omega arith) in
      rw (ap token w, walk_items)
        (subst
          (λ x.
            elim (act node x s) [
              | on s' ↦ walk_items act fuel mem strings node (skip_prop mem p + 4) s'
              | halt s' ↦ stopped s'
              | no_fuel ↦ out_of_fuel
            ]
            ≡ outcome act e (run act (entries node (property v name rest)) s))
          is
          (next_prop-outcome act fuel mem strings node (skip_prop mem p + 4) e (entries node rest)
            (λ s'.
              walk-ItemsAt rest fuel mem strings node (skip_prop mem p + 4) e s'
                (subst (λ x. ItemsAt mem strings x rest e) next later) (omega arith))
            (act node v s)))
  walk-ItemsAt (child a name inner rest) (suc fuel) mem strings node p e s
        (w, at, text, q, inside, later) le =
      rw (ap token w, walk_items)
        (rw (first_item-TextAt fuel mem p name text (omega arith)) (
          rw
            (
              walk-ItemsAt inner fuel mem strings p (p + 4 + align4 (length name + 1)) q s inside
                  (omega arith),
              at,
            )
            (rw (run-append act (entries p inner) (entries node rest) s) (
              next_child-outcome act fuel mem strings node q e (entries node rest)
                (λ s'. walk-ItemsAt rest fuel mem strings node (q + 4) e s' later (omega arith))
                (run act (entries p inner) s)))))
