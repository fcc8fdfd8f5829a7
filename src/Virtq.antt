-- ===== src/Virtq.antt =====
-- The queues of virtio devices: arm/drivers/virtio/virtq.c. The memory that the device shares is part of
-- the state; what the device writes to it is not modelled.
pub mod Descs
pub mod Rings
pub mod Tests
use agatha.Prelude.{
  ℕ, zero, suc, ◌+◌, ◌-◌, ◌*◌, ◌/◌, ◌%◌, ◌^◌, Bool, true, false, ltb, ◌==◌, if◌then◌else◌, Option,
  none, some, update,
}

-- `PAGE_ALIGN`
abbrev pub whole_pages : ℕ → ℕ
whole_pages n = (n + 4095) / 4096 * 4096

-- `virtq_size`, with descriptors of 16 bytes and used items of 8.
unfoldable pub virtq_size : (qsz : ℕ) → ℕ
virtq_size qsz = whole_pages (16 * qsz + 2 * (3 + qsz)) + whole_pages (2 * 3 + 8 * qsz)

-- `struct virtq`: the descriptors by their `next`, and the rings by their entries.
pub record Virtq : Type 0 where
  pub size : ℕ
  pub desc_free_index : ℕ
  pub next_of : ℕ → ℕ
  pub avail_idx : ℕ
  pub avail_rings : ℕ → ℕ
  pub last_seen_used : ℕ
  pub used_index : ℕ
  pub used_rings : ℕ → ℕ
  pub notified : Bool
  pub acknowledged : Bool

-- The mark of the end of the free descriptors.
abbrev pub no_desc : ℕ
no_desc = 0xffff

-- `virtq_get_desc`: the index of a descriptor, or nil.
unfoldable pub get_desc : Virtq → Option (ℕ × Virtq)
get_desc q =
    if q.desc_free_index == no_desc
    then none
    else some (q.desc_free_index, record (q) { desc_free_index = q.next_of q.desc_free_index })

-- `virtq_free_desc`
unfoldable pub free_desc : Virtq → (index : ℕ) → Virtq
free_desc q index = record (q) {
  next_of = update q.next_of index q.desc_free_index;
  desc_free_index = index;
}

-- `virtq_push`, with `avail->idx` of 16 bits.
unfoldable pub virtq_push : Virtq → (index : ℕ) → Virtq
virtq_push q index = record (q) {
  avail_rings = update q.avail_rings (q.avail_idx % q.size) (index % 2 ^ 16);
  avail_idx = (q.avail_idx + 1) % 2 ^ 16;
  notified = true;
}

-- `virtq_pop`: the used item, or nil. `last_seen_used` has 32 bits, and `used->index` has 16.
unfoldable pub virtq_pop : Virtq → Option (ℕ × Virtq)
virtq_pop q =
    if q.last_seen_used == q.used_index
    then none
    else some (
      q.used_rings (q.last_seen_used % q.size),
      record (q) { last_seen_used = (q.last_seen_used + 1) % 2 ^ 32; acknowledged = true },
    )

-- The loop of `virtq_init` over `n` more descriptors from `i` on.
unfoldable pub link_descs : (n i : ℕ) → (ℕ → ℕ) → ℕ → ℕ
link_descs zero i next_of = next_of
link_descs (suc n) i next_of = link_descs n (i + 1) (update next_of i (i + 1))

-- The `next` of the descriptors, the last of which is `last`.
abbrev pub all_links : (last : ℕ) → ℕ → ℕ
all_links last = update (link_descs last 0 (λ i. 0)) last no_desc

-- A queue as `virtq_init` leaves it.
abbrev pub new_queue : (num : ℕ) → Virtq
new_queue num = record {
  size = num;
  desc_free_index = 0;
  next_of = all_links (num - 1);
  avail_idx = 0;
  avail_rings = λ i. 0;
  last_seen_used = 0;
  used_index = 0;
  used_rings = λ i. 0;
  notified = false;
  acknowledged = false;
}

-- `virtq_init` with memory for a queue of at least one descriptor: `none` for false, where the device
-- has room for `max` only.
unfoldable pub init : (max num : ℕ) → Option Virtq
init max num = if ltb max num then none else some (new_queue num)
