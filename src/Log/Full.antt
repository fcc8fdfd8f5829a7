-- ===== src/Log/Full.antt =====
-- `add_log` where the ring has no room for the line.
use mathlib.Core.List.{append-nil}
use agatha.Prelude.{
  ℕ, suc, ◌+◌, ◌-◌, ◌<◌, ◌≤◌, ◌≡◌, sym, ap, ◌∙◌, arith, inl, inr, leb, if◌then◌else◌, some, List,
  [], ◌++◌, length, take, drop, drop_all,
}
use agatha.Log.{log_size, Ring, add_part, part_len}
use agatha.Log.Bytes.{ring_read, count, contents, InBuf}
use agatha.Log.Adding.{
  Adds, fits_or, add_part-InBuf, add_part-contents, add_part-count, part_len-none, add_log-done,
  add_log-part, add_log-break, add_whole, later-length, add_rest,
}

-- How much of a line is added that does not fit: what there is up to the end of the buffer.
abbrev pub first_part : Ring → ℕ
first_part r = if leb r.start r.end then log_size - r.end else 0

first_part-before : (r : Ring) → r.start ≤ r.end → first_part r ≡ log_size - r.end
first_part-before r h = ground arith

first_part-after : (r : Ring) → r.end < r.start → first_part r ≡ 0
first_part-after r h = ground arith

-- Where the ring and the line together have the size of the buffer or more, and the ring does not
-- begin at the first byte of the buffer, add_log ends and overwrites nothing: the ring holds its
-- bytes, with the part of the line behind them that goes up to the end of the buffer, if the ring has
-- not come around, and else nothing.
add_log-full :
    (fuel : ℕ) (r : Ring) (s : List ℕ)
    → InBuf r
    → 0 < r.start
    → log_size ≤ count r + length s
    → Adds (suc (suc fuel)) r s (contents r ++ take (first_part r) s)
add_log-full fuel r s i pos full = elim (fits_or r.start r.end) [
  | inr around ↦ (
    r,
    add_log-break (suc fuel) r s (part_len-none r (length s) i around full),
    i,
    sym (append-nil (contents r))
        ∙ ap (λ n. contents r ++ take n s) (sym (first_part-after r around)),
  )
  | inl before ↦
      let f = log_size - r.end in
      let hs = i.start_lt in
      let he = i.end_lt in
      let past : log_size < r.end + length s = omega arith in
      let n = later-length (suc fuel) r s i before past in
      let c = add_part-count r f s i (omega arith) (omega arith) (omega arith) in
      let j = add_part-InBuf r f s i (omega arith) (omega arith) (omega arith) in
      add_rest (suc fuel) r s i before past (contents r ++ take (first_part r) s) (
        add_part r f s,
        add_log-break fuel (add_part r f s) (drop f s)
            (part_len-none (add_part r f s) (length (drop f s)) j (omega arith) (omega arith)),
        j,
        add_part-contents r f s i (omega arith) (omega arith) (omega arith)
            ∙ ap (λ n. contents r ++ take n s) (sym (first_part-before r before)),
      )
]

nothing_left : (r : Ring) → count r ≡ 0 → contents r ≡ []
nothing_left r e = ap (ring_read r.buf r.start) e

part_len-top : (r : Ring) (n : ℕ) → r.start ≡ 0 → r.end + n ≤ log_size → part_len r n ≡ some n
unfolding part_len
part_len-top r n e top = ground arith

-- Where the ring begins at the first byte of the buffer, and it and a line that is shorter than the
-- buffer have the size of the buffer or more together, all the bytes of the ring are lost: add_log
-- ends with only the part of the line in it that did not go up to the end of the buffer.
pub add_log-overwrites :
    (fuel : ℕ) (r : Ring) (s : List ℕ)
    → InBuf r
    → r.start ≡ 0
    → log_size ≤ count r + length s
    → length s < log_size
    → Adds (suc (suc (suc fuel))) r s (drop (log_size - r.end) s)
add_log-overwrites fuel r s i zero_start full short =
    let hs = i.start_lt in
    let he = i.end_lt in
    elim (fits_or (r.end + length s) log_size) [
      | inl top ↦
          let n = length s in
          let e : log_size - r.end ≡ n = omega arith in
          (
            add_part r n s,
            add_log-part (suc (suc fuel)) r s n (omega arith) (part_len-top r n zero_start top)
                ∙ add_log-done (suc fuel) (add_part r n s) (drop n s) (ap length (drop_all s)),
            record { start_lt = hs; end_lt = omega arith },
            nothing_left (add_part r n s) (omega arith)
                ∙ sym (drop_all s)
                ∙ ap (λ x. drop x s) (sym e),
          )
      | inr past ↦
          let f = log_size - r.end in
          let before : r.start ≤ r.end = omega arith in
          let n = later-length (suc (suc fuel)) r s i before past in
          let (r', e, j, same) =
            add_whole fuel (add_part r f s) (drop f s)
              (record { start_lt = hs; end_lt = omega arith }) (omega arith) (omega arith) in
          add_rest (suc (suc fuel)) r s i before past (drop f s) (
            r',
            e,
            j,
            same ∙ ap (λ (x : List ℕ). x ++ drop f s) (nothing_left (add_part r f s) (omega arith)),
          )
    ]
