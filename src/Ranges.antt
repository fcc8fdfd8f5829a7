-- ===== src/Ranges.antt =====
-- The free memory of the root process: `addr_range_insert`, `addr_range_split`, `addr_range_get`,
-- `addr_range_get_any` and `add_ram` of arm/root/mem.c. The linked list of ranges is a List, and the
-- pool that their nodes come from is the number of nodes that it has left. Sums of addresses and lengths
-- wrap around at 2 ^ 32.
pub mod Covers
pub mod Finds
pub mod Tests
use agatha.Prelude.{
  ℕ, zero, suc, ◌+◌, ◌-◌, ◌*◌, ◌/◌, ◌%◌, ◌^◌, Bool, true, false, ◌&&◌, ltb, leb, ◌==◌,
  if◌then◌else◌, List, [], ◌∷◌, Option, none, some,
}

-- `struct addr_range`
pub record Range : Type 0 where
  pub start : ℕ
  pub len : ℕ

-- What a search of the list comes to: a range that was taken out of it, the nodes that the pool has
-- left and the new list; nil, with the list as it is then; or a write through nil.
pub data Taken : Type 0 where
  got : (m : Range) → (nodes : ℕ) → (rest : List Range) → Taken
  nothing : (nodes : ℕ) → (rest : List Range) → Taken
  fault : Taken

-- The end of a step of the loop that goes on to the next range.
abbrev pub after : Range → Taken → Taken
after f (got m nodes rest) = got m nodes (f ∷ rest)
after f (nothing nodes rest) = nothing nodes (f ∷ rest)
after f fault = fault

-- The last part of `addr_range_get` and `addr_range_get_any`: the front of the range is taken, and what
-- is behind it stays. The second split is not tested.
unfoldable pub take_front : (nodes : ℕ) → Range → (len : ℕ) → List Range → Taken
take_front zero f len fs = if ltb len f.len then fault else got f zero fs
take_front (suc nodes) f len fs =
    if ltb len f.len
    then got (record { start = f.start; len = len }) nodes
        ((record { start = (f.start + len) % 2 ^ 32; len = f.len - len }) ∷ fs)
    else got f (suc nodes) fs

-- `f->len - off`, which wraps around.
abbrev pub behind : (len off : ℕ) → ℕ
behind len off = if leb off len then len - off else 2 ^ 32 - (off - len)

-- The part before: a range that begins before `start` is split there, and its first part stays.
unfoldable pub take_at : (nodes : ℕ) → Range → (start len : ℕ) → List Range → Taken
take_at zero f start len fs =
    if ltb f.start start then nothing zero (f ∷ fs) else take_front zero f len fs
take_at (suc nodes) f start len fs =
    if ltb f.start start
    then (let low : Range = record { start = f.start; len = start - f.start } in
        let high : Range = record { start = start; len = behind f.len (start - f.start) } in
        after low (take_front nodes high len fs))
    else take_front (suc nodes) f len fs

-- `f->start + f->len`, which wraps around.
abbrev pub range_end : Range → ℕ
range_end f = (f.start + f.len) % 2 ^ 32

-- `addr_range_get`
unfoldable pub addr_range_get : (nodes : ℕ) → List Range → (start len : ℕ) → Taken
addr_range_get nodes [] start len = nothing nodes []
addr_range_get nodes (f ∷ fs) start len =
    let later = addr_range_get nodes fs start len in
    if leb f.start start && ltb start (range_end f)
    then (if ltb (range_end f) ((start + len) % 2 ^ 32)
        then nothing nodes (f ∷ fs)
        else take_at nodes f start len fs)
    else after f later

-- `(start + align - 1) & ~(align - 1)`, for an `align` that is a power of 2.
abbrev pub align_up : ℕ → ℕ → ℕ
align_up start align = (start + align + (2 ^ 32 - 1)) % 2 ^ 32 / align * align

-- `addr_range_get_any`: its test adds the gap before the aligned address to the length.
unfoldable pub addr_range_get_any : (nodes : ℕ) → List Range → (len align : ℕ) → Taken
addr_range_get_any nodes [] len align = nothing nodes []
addr_range_get_any nodes (f ∷ fs) len align =
    let later = addr_range_get_any nodes fs len align in
    let a = align_up f.start align in
    if ltb len ((a + (2 ^ 32 - f.start) + f.len) % 2 ^ 32)
    then take_at nodes f a len fs
    else after f later

-- `add_ram`, which exits where the pool is empty.
unfoldable pub add_ram : (nodes : ℕ) → List Range → (start len : ℕ) → Option (ℕ × List Range)
add_ram zero fs start len = none
add_ram (suc nodes) fs start len = some (nodes, record { start = start; len = len } ∷ fs)
