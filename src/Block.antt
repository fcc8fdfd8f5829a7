-- ===== src/Block.antt =====
-- The server for a block device: lib/block/block.c. What the system calls on the frame of a request give,
-- and what the driver answers, are arguments.
pub mod Bounds
pub mod Tests
use agatha.Prelude.{
  ℕ, ◌+◌, ◌-◌, ◌*◌, ◌%◌, ◌^◌, Bool, true, false, ltb, if◌then◌else◌, Option, none, some, List, [],
  ◌∷◌,
}

-- `struct block_dev`, without its functions.
pub record BlockDev : Type 0 where
  pub block_size : ℕ
  pub nblocks : ℕ
  pub map_buffers : Bool

-- The fields of `rq->read` and of `rq->write`.
pub record Transfer : Type 0 where
  pub blk : ℕ
  pub n_blks : ℕ
  pub off : ℕ

-- A call of a function of the driver: whether it writes, whether the buffer is mapped, the address of the
-- buffer, and the blocks.
pub record Access : Type 0 where
  pub writes : Bool
  pub mapped : Bool
  pub addr : ℕ
  pub first : ℕ
  pub count : ℕ

-- A frame: what `frame_info` gives for its physical address and length, and `frame_map_anywhere` for the
-- address at which it is mapped.
pub record FrameAt : Type 0 where
  pub pa : ℕ
  pub len : ℕ
  pub mapping : Option ℕ

-- The answer and what was called for it: ERR, or what the driver returned.
pub data Answer : Type 0 where
  err : Answer
  answered : (access : Access) (ret : ℕ) → Answer

-- `block_rsp` of `handle_info`
abbrev pub handle_info : BlockDev → ℕ × ℕ
handle_info dev = (dev.block_size, dev.nblocks)

-- `len - off < n * dev->block_size` of `handle_read`
abbrev pub too_small_to_read : BlockDev → (len : ℕ) → Transfer → Bool
too_small_to_read dev len t =
    ltb ((len + (2 ^ 32 - t.off)) % 2 ^ 32) (t.n_blks * dev.block_size % 2 ^ 32)

-- `len < off + n * dev->block_size` of `handle_write`
abbrev pub too_small_to_write : BlockDev → (len : ℕ) → Transfer → Bool
too_small_to_write dev len t = ltb len ((t.off + t.n_blks * dev.block_size) % 2 ^ 32)

module _ (driver : Access → ℕ) where
  -- The call of the driver for a buffer.
  abbrev pub access_at : (writes mapped : Bool) → (addr : ℕ) → Transfer → Answer
  access_at writes mapped addr t =
      let a : Access = record {
        writes = writes;
        mapped = mapped;
        addr = (addr + t.off) % 2 ^ 32;
        first = t.blk;
        count = t.n_blks;
      } in
      answered a (driver a)

  -- What `handle_read` and `handle_write` share, behind their tests.
  abbrev pub transfer : (writes : Bool) → BlockDev → FrameAt → Transfer → Answer
  transfer writes dev frame t = elim dev.map_buffers [
    | false ↦ access_at writes false frame.pa t
    | true ↦ elim frame.mapping [ none ↦ err | some addr ↦ access_at writes true addr t ]
  ]

  -- `handle_read`, with no frame where `frame_info` fails.
  unfoldable pub handle_read : BlockDev → Option FrameAt → Transfer → Answer
  handle_read dev frame t = elim frame [
    | none ↦ err
    | some f ↦ if too_small_to_read dev f.len t then err else transfer false dev f t
  ]

  -- `handle_write`
  unfoldable pub handle_write : BlockDev → Option FrameAt → Transfer → Answer
  handle_write dev frame t = elim frame [
    | none ↦ err
    | some f ↦ if too_small_to_write dev f.len t then err else transfer true dev f t
  ]
