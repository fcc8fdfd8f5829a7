-- ===== src/Block/Tests.antt =====
-- A device with blocks of 512 bytes, and a frame of 8 of them.
use agatha.Prelude.{ℕ, ◌≡◌, refl, arith, false, some}
use agatha.Block.{BlockDev, Transfer, Access, FrameAt, err, handle_read, handle_write}
use agatha.Block.Bounds.{InFrame, handle_read-InFrame}

abbrev device : BlockDev
device = record { block_size = 512; nblocks = 100; map_buffers = false }

abbrev buffer : FrameAt
buffer = record { pa = 0x10000; len = 4096; mapping = some 0x50000 }

abbrev two_blocks : Transfer
two_blocks = record { blk = 7; n_blks = 2; off = 1024 }

abbrev behind_frame : Transfer
behind_frame = record { blk = 7; n_blks = 2; off = 8192 }

abbrev driver : Access → ℕ
driver a = 0

read_small : handle_read driver device (some buffer) (record (two_blocks) { n_blks = 7 }) ≡ err
unfolding handle_read
read_small = refl

handle_read-InFrame_example :
    InFrame device buffer.pa buffer.len buffer.mapping
      (handle_read driver device (some buffer) two_blocks)
    × InFrame device buffer.pa buffer.len buffer.mapping
        (handle_write driver device (some buffer) two_blocks)
handle_read-InFrame_example =
    handle_read-InFrame driver device buffer two_blocks (omega arith, omega arith) (omega arith)
      (omega arith)
