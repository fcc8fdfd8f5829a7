-- ===== src/Block/Bounds.antt =====
-- What handle_read and handle_write of lib/block/block.c let a driver access.
use agatha.Prelude.{
  ℕ, ◌+◌, ◌*◌, ◌%◌, ◌^◌, ◌<◌, ◌≤◌, arith, Bool, Bool-cases, true, false, inl, inr, Option, none,
  some,
}
use agatha.Block.{
  BlockDev, Transfer, Access, FrameAt, Answer, err, answered, too_small_to_read, too_small_to_write,
  access_at, handle_read, handle_write,
}

-- A buffer for the blocks lies in the `len` bytes from `base` on.
abbrev pub Within : BlockDev → (base len : ℕ) → Access → Type 0
Within dev base len a = (base ≤ a.addr) × (a.addr + a.count * dev.block_size ≤ base + len)

-- The driver is called for a buffer in the frame, where it is mapped or in memory, or not at all.
abbrev pub InMapping : BlockDev → (len : ℕ) → Option ℕ → Access → Type 0
InMapping dev len none a = ⊥
InMapping dev len (some addr) a = Within dev addr len a

abbrev pub InFrame : BlockDev → (pa len : ℕ) → (mapping : Option ℕ) → Answer → Type 0
InFrame dev pa len mapping err = Unit
InFrame dev pa len mapping (answered a ret) = elim a.mapped [
  | false ↦ Within dev pa len a
  | true ↦ InMapping dev len mapping a
]

-- The frame does not wrap around the end of memory.
abbrev pub Fits : (pa len : ℕ) → (mapping : Option ℕ) → Type 0
Fits pa len none = pa + len < 2 ^ 32
Fits pa len (some addr) = (pa + len < 2 ^ 32) × (addr + len < 2 ^ 32)

module _ (driver : Access → ℕ) where
  access-Within :
      (writes mapped : Bool) (dev : BlockDev) (base len : ℕ) (t : Transfer)
      → base + len < 2 ^ 32
      → t.off + t.n_blks * dev.block_size ≤ len
      → Within dev base len (record {
        writes = writes;
        mapped = mapped;
        addr = (base + t.off) % 2 ^ 32;
        first = t.blk;
        count = t.n_blks;
      })
  access-Within writes mapped dev base len t fits room = (omega arith, omega arith)

  transfer-InFrame :
      (buffers writes : Bool) (dev : BlockDev) (pa len : ℕ) (mapping : Option ℕ) (t : Transfer)
      → Fits pa len mapping
      → t.off + t.n_blks * dev.block_size ≤ len
      → InFrame dev pa len mapping (elim buffers [
        | false ↦ access_at driver writes false pa t
        | true ↦ elim mapping [ none ↦ err | some addr ↦ access_at driver writes true addr t ]
      ])
  transfer-InFrame false writes dev pa len none t fits room =
      access-Within writes false dev pa len t fits room
  transfer-InFrame false writes dev pa len (some addr) t fits room =
      access-Within writes false dev pa len t fits.0 room
  transfer-InFrame true writes dev pa len none t fits room = tt
  transfer-InFrame true writes dev pa len (some addr) t fits room =
      access-Within writes true dev addr len t fits.1 room

  Fits-lt : (pa len : ℕ) (mapping : Option ℕ) → Fits pa len mapping → len < 2 ^ 32
  Fits-lt pa len none h = omega arith
  Fits-lt pa len (some addr) h = omega arith

  -- For a frame that does not wrap around where it is and where it is mapped, an offset inside of it,
  -- and an offset and number of bytes that add up to less than 2 ^ 32, handle_read and handle_write
  -- each call the driver for a buffer that lies in the frame, or answer with an error.
  pub handle_read-InFrame :
      (dev : BlockDev) (f : FrameAt) (t : Transfer)
      → Fits f.pa f.len f.mapping
      → t.off ≤ f.len
      → t.off + t.n_blks * dev.block_size < 2 ^ 32
      → InFrame dev f.pa f.len f.mapping (handle_read driver dev (some f) t)
        × InFrame dev f.pa f.len f.mapping (handle_write driver dev (some f) t)
  unfolding handle_read handle_write
  handle_read-InFrame dev f t fits inside small =
      let len = Fits-lt f.pa f.len f.mapping fits in
      (
        elim (Bool-cases (too_small_to_read dev f.len t)) [
          | inl e ↦ rw (e, handle_read) tt
          | inr e ↦
              let room : t.off + t.n_blks * dev.block_size ≤ f.len = ground arith in
              rw (e, handle_read)
                (transfer-InFrame dev.map_buffers false dev f.pa f.len f.mapping t fits room)
        ],
        elim (Bool-cases (too_small_to_write dev f.len t)) [
          | inl e ↦ rw (e, handle_write) tt
          | inr e ↦
              let room : t.off + t.n_blks * dev.block_size ≤ f.len = ground arith in
              rw (e, handle_write)
                (transfer-InFrame dev.map_buffers true dev f.pa f.len f.mapping t fits room)
        ],
      )
