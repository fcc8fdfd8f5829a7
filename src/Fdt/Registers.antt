-- ===== src/Fdt/Registers.antt =====
-- The index that fdt_node_regs of lib/fdt/fdt.c counts in words, and its guard in bytes.
use agatha.Prelude.{ℕ, ◌+◌, ◌*◌, ◌^◌, ◌<◌, ◌≤◌, ◌≡◌, refl, arith, false, leb}
use agatha.Fdt.{beto32}
use agatha.Fdt.Lookup.{got, node_property, regs, node_regs, regs_index, reg}

-- For an ind below 2 ^ 26 that passes the guard of fdt_node_regs, where "reg" has at most 32 bytes for
-- each ind, it returns two words that begin at or behind the end of the data of "reg".
pub node_regs-outside :
    (fuel : ℕ) (mem : ℕ → ℕ) (dtb node ind len d : ℕ)
    → node_property fuel mem dtb node reg ≡ got len d
    → ind * 8 < len
    → len ≤ ind * 32
    → ind < 2 ^ 26
    → (a : ℕ) × (node_regs fuel mem dtb node ind ≡ regs (beto32 mem a) (beto32 mem (a + 4)))
      × (d + len ≤ a)
unfolding node_regs
node_regs-outside fuel mem dtb node ind len d is lt le small =
    let index : regs_index ind ≡ ind * 8 = omega arith in
    let guard : leb len (ind * 8) ≡ false = ground arith in
    let next : d + 4 * (ind * 8 + 1) ≡ d + ind * 32 + 4 = omega arith in
    let here : d + 4 * (ind * 8) ≡ d + ind * 32 = omega arith in
    (d + ind * 32, rw (is, node_regs) (rw index (rw guard (rw (next, here) refl))), omega arith)
