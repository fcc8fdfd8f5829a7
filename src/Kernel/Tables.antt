-- ===== src/Kernel/Tables.antt =====
-- Page tables in the two-level format of ARM: arm/include/arm/mmu.h, arm/lib/c/mmu.c, and the windows
-- that arm/kern/main.c opens on them. A table is read and written at its physical address. What a
-- window maps is not modelled, only the space that it takes: it is never given back.
pub mod Slots
pub mod Writes
pub mod Maps
pub mod Unmaps
pub mod Entries
pub mod Restored
use agatha.Prelude.{
  ℕ, zero, suc, ◌+◌, ◌-◌, ◌*◌, ◌/◌, ◌%◌, ◌^◌, Bool, not, ◌&&◌, ltb, leb, ◌==◌, if◌then◌else◌,
  update, bit_or,
}
use agatha.Kernel.State.{Mmu, Check, ok, refuse, fault, ◌>>=◌, ◌>>◌, safe}

-- L1X and L2X: the entries for an address in the two levels.
abbrev pub l1x : ℕ → ℕ
l1x va = va % 2 ^ 32 / 2 ^ 20

abbrev pub l2x : ℕ → ℕ
l2x va = va / 2 ^ 12 % 2 ^ 8

-- L1PA and L2PA: what an entry leads to.
abbrev pub l1pa : ℕ → ℕ
l1pa r = r / 4 * 4

abbrev pub l2pa : ℕ → ℕ
l2pa r = r / 512 * 512

abbrev pub page_size : ℕ
page_size = 2 ^ 12

-- PAGE_ALIGN
abbrev pub page_align : ℕ → ℕ
page_align x = (x + (page_size - 1)) % 2 ^ 32 / page_size * page_size

-- `kernel_map`: where the next window goes, and the address of this one; `va_max` is `kernel_va_max`,
-- where the windows end. The test of the end stands before the window is moved to the next table.
unfoldable pub kernel_map : (va_max va_next pa len : ℕ) → Check (ℕ × ℕ)
kernel_map va_max va pa len =
    let size = page_align len in
    let next_table = l1x (va + size) * 2 ^ 20 in
    if ltb va_max ((va + size) % 2 ^ 32)
    then fault
    else if l1x va == l1x (va + size)
    then ok ((va + size) % 2 ^ 32, va + pa % page_size)
    else if l1x next_table == l1x (next_table + size)
    then ok ((next_table + size) % 2 ^ 32, next_table + pa % page_size)
    else fault

abbrev pub set_word : Mmu → (a v : ℕ) → Mmu
set_word m a v = record m { ram = update m.ram a v }

-- `map_l2`, whose `l1` has 4096 entries: the tables that follow one another from `pa` on are put into
-- the entries from that of `va` on.
unfoldable pub map_l2 : (n : ℕ) → Mmu → (l1 pa va o : ℕ) → Check Mmu
map_l2 zero m l1 pa va o = ok m
map_l2 (suc n) m l1 pa va o = do
  safe (ltb (l1x va + o) 4096)
  map_l2 n (set_word m (l1 + 4 * (l1x va + o)) (bit_or ((pa + o * 2 ^ 12) % 2 ^ 32) 1)) l1 pa va
      (o + 1)

-- The second-level table that an address goes through, with a window opened on it. A table that is not
-- there is a panic.
unfoldable pub open_table : (va_max : ℕ) → Mmu → (l1 v : ℕ) → Check (Mmu × ℕ)
open_table va_max m l1 v = do
  let e = m.ram (l1 + 4 * l1x v)
  safe (ltb 0 e)
  (next, window) ← kernel_map va_max m.va_next (l1pa e) page_size
  ok (record m { va_next = next }, l1pa e)

-- The table that the loops of `sys_frame_map` and `sys_frame_unmap` hold: its entry in the first level,
-- and where it is.
pub data Held : Type 0 where
  none_held : Held
  held : (x table : ℕ) → Held

unfoldable pub table_for : (va_max : ℕ) → Mmu → (l1 v : ℕ) → Held → Check (Mmu × ℕ)
table_for va_max m l1 v none_held = open_table va_max m l1 v
table_for va_max m l1 v (held x table) =
    if l1x v == x then ok (m, table) else open_table va_max m l1 v

-- The loop of `sys_frame_map` over the pages from offset `o` on; an entry in use is a panic.
unfoldable pub map_loop : (va_max n : ℕ) → Mmu → (l1 pa va perm o : ℕ) → Held → Check Mmu
map_loop va_max zero m l1 pa va perm o h = ok m
map_loop va_max (suc n) m l1 pa va perm o h = do
  (t, table) ← table_for va_max m l1 (va + o) h
  let a = table + 4 * l2x (va + o)
  safe (t.ram a == 0)
  map_loop va_max n (set_word t a (bit_or ((pa + o) % 2 ^ 32) perm)) l1 pa va perm (o + page_size)
      (held (l1x (va + o)) table)

-- The loop of `sys_frame_unmap`: `first` is the page that the first entry led to, 0 before. An entry that
-- does not go on from it ends the loop.
unfoldable pub unmap_loop : (va_max n : ℕ) → Mmu → (l1 va first o : ℕ) → Held → Check Mmu
unmap_loop va_max zero m l1 va first o h = ok m
unmap_loop va_max (suc n) m l1 va first o h = do
  (t, table) ← table_for va_max m l1 (va + o) h
  let a = table + 4 * l2x (va + o)
  let e = t.ram a
  safe (ltb 0 e)
  let first' = if first == 0 then l2pa e else first
  let rest =
      unmap_loop va_max n (set_word t a 0) l1 va first' (o + page_size) (held (l1x (va + o)) table)
  if ltb 0 first && not (l2pa e == (first + o) % 2 ^ 32) then ok t else rest
