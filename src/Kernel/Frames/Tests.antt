-- ===== src/Kernel/Frames/Tests.antt =====
-- The machine of the kernel's tests with a first-level table at 5000 (capability 5), whose first entry
-- leads to a second-level table, and a frame of two pages at 6000 (capability 6).
use agatha.Prelude.{
  ℕ, ◌+◌, ◌*◌, ◌/◌, ◌%◌, ◌^◌, ◌<◌, ◌≡◌, ◌≢◌, refl, sym, ap, ◌∙◌, true, arith, bit_or, update,
}
use agatha.Kernel.Links.{nil}
use agatha.Kernel.State.{Kernel, ok, ok_code, no_cap, obj_caplist, obj_frame, obj_endpoint}
use agatha.Kernel.Caps.{find_cap, find_cap_type}
use agatha.Kernel.Tables.{l1x, l2x, kernel_map, open_table, table_for, map_loop, unmap_loop}
use agatha.Kernel.Tables.Slots.{Separate, slot}
use agatha.Kernel.Tables.Entries.{Maps}
use agatha.Kernel.Frames.{
  frame_l1, frame_mem, page_bits, find_frames, find_place, frame_map, frame_unmap, take_frame,
}
use agatha.Kernel.Frames.Mapping.{frame_map-Maps}
use agatha.Kernel.Frames.RoundTrip.{Undone, frame_unmap-frame_map}
use agatha.Kernel.Tests.{machine, a_cap, state_of}
use agatha.Kernel.Tests as Machine

abbrev table_ram : ℕ → ℕ
table_ram = update (λ _. 0) 65536 131073

abbrev mapper : Kernel
mapper = record machine {
  type = update (update (λ _. obj_frame) 4000 obj_caplist) 1000 obj_endpoint;
  caps = λ _.
      update (update (update (λ _. no_cap) 1 (a_cap 3 4000)) 5 (a_cap 3 5000)) 6 (a_cap 3 6000);
  frame =
      update (λ _. record { kind = frame_mem; pa = 1048576; len = 8192; va = 0; next = nil }) 5000
        (record { kind = frame_l1; pa = 65536; len = 16384; va = 0; next = nil });
  mmu = record { ram = table_ram; va_next = 4096 };
}

first_only : (j : ℕ) → 0 < table_ram (65536 + 4 * j) → j ≡ 0
first_only j h = ground arith

in_table :
    (v : ℕ)
    → 0 < table_ram (65536 + 4 * l1x v)
    → (l1x v ≡ 0) × (slot table_ram 65536 v ≡ 131072 + 4 * l2x v)
in_table v h =
    let e = first_only (l1x v) h in (e, ap (λ j. table_ram (65536 + 4 * j) / 4 * 4 + 4 * l2x v) e)

table_ram-Separate : Separate table_ram 65536
table_ram-Separate = record { tables = tables; first = first }
  where
    tables :
        (v v' : ℕ)
        → 0 < table_ram (65536 + 4 * l1x v)
        → 0 < table_ram (65536 + 4 * l1x v')
        → slot table_ram 65536 v ≡ slot table_ram 65536 v'
        → (l1x v ≡ l1x v') × (l2x v ≡ l2x v')
    tables v v' p p' e =
        let (a, b) = in_table v p in
        let (a', b') = in_table v' p' in
        let q : 131072 + 4 * l2x v ≡ 131072 + 4 * l2x v' = sym b ∙ e ∙ b' in
        (a ∙ sym a', omega arith)

    first :
        (v j : ℕ)
        → 0 < table_ram (65536 + 4 * l1x v)
        → j < 4096
        → slot table_ram 65536 v ≢ 65536 + 4 * j
    first v j p lt e =
        let (a, b) = in_table v p in
        let q : 131072 + 4 * l2x v ≡ 65536 + 4 * j = sym b ∙ e in omega arith

mapped : Kernel
unfolding state_of
mapped = state_of (frame_map (2 ^ 31) mapper 20480 24576 0 true)

maps : frame_map (2 ^ 31) mapper 20480 24576 0 true ≡ ok (ok_code, mapped)
unfolding mapped state_of frame_map find_frames find_cap_type find_cap kernel_map map_loop table_for
    open_table
maps = refl

frames_found : find_frames mapper 20480 24576 ≡ ok (Machine.slot 5, Machine.slot 6)
unfolding find_frames find_cap_type find_cap
frames_found = refl

frame_map-Maps_example :
    Maps 2 table_ram 65536 0 (λ x. bit_or ((1048576 + x) % 2 ^ 32) (page_bits true)) mapped.mmu.ram
frame_map-Maps_example =
    frame_map-Maps (2 ^ 31) mapper 20480 24576 0 true (Machine.slot 5) (Machine.slot 6) ok_code
      mapped frames_found table_ram-Separate (omega arith) maps

unmapped : Kernel
unfolding state_of
unmapped = state_of (frame_unmap (2 ^ 31) 1 mapped 20480 28672 0)

unmaps : frame_unmap (2 ^ 31) 1 mapped 20480 28672 0 ≡ ok (ok_code, unmapped)
unfolding unmapped mapped state_of frame_map frame_unmap find_frames find_place find_cap_type
    find_cap kernel_map map_loop unmap_loop take_frame table_for open_table
unmaps = refl

table_still : find_cap_type mapped mapped.up 20480 3 obj_frame ≡ ok (Machine.slot 5)
unfolding mapped state_of frame_map find_frames find_cap_type find_cap kernel_map map_loop table_for
    open_table
table_still = refl

place_free : find_place mapped 28672 ≡ ok (Machine.slot 7)
unfolding mapped state_of frame_map find_place find_frames find_cap_type find_cap kernel_map
    map_loop table_for open_table
place_free = refl

frame_unmap-frame_map_example : Undone mapper 6000 (Machine.slot 7) unmapped
frame_unmap-frame_map_example =
    frame_unmap-frame_map (2 ^ 31) 0 mapper 20480 24576 28672 0 true (Machine.slot 5)
      (Machine.slot 6) (Machine.slot 7) ok_code ok_code mapped unmapped frames_found
      table_ram-Separate (omega arith) (omega arith) refl (omega arith) (omega arith) maps
      table_still place_free unmaps
