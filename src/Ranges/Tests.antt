-- ===== src/Ranges/Tests.antt =====
-- Two free ranges, of which the second one is asked for a part.
use agatha.Prelude.{ℕ, ◌^◌, ◌-◌, ◌≡◌, refl, arith, List, [], ◌∷◌}
use agatha.Ranges.{Range, nothing, addr_range_get}
use agatha.Ranges.Covers.{Splits, addr_range_get-Splits}
use agatha.Ranges.Finds.{Gets, addr_range_get-Gets}

abbrev range : ℕ → ℕ → Range
range start len = record { start = start; len = len }

abbrev free : List Range
free = range 0 4096 ∷ range 65536 65536 ∷ []

addr_range_get-Splits_example : Splits 8 69632 4096 free (addr_range_get 8 free 69632 4096)
addr_range_get-Splits_example =
    addr_range_get-Splits 8 free 69632 4096 (omega arith, (omega arith, tt)) (omega arith)

addr_range_get-Gets_example : Gets 69632 4096 free (addr_range_get 8 free 69632 4096)
addr_range_get-Gets_example =
    addr_range_get-Gets 6 (range 0 4096 ∷ []) (range 65536 65536) [] 69632 4096
      (omega arith, (omega arith, tt)) (refl, tt) (omega arith) (omega arith) (omega arith)
      (omega arith)

-- A range that reaches to the end of memory is passed over.
at_end :
    addr_range_get 8 (range (2 ^ 32 - 8192) 8192 ∷ []) (2 ^ 32 - 8192) 4096
    ≡ nothing 8 (range (2 ^ 32 - 8192) 8192 ∷ [])
unfolding addr_range_get
at_end = refl
