-- ===== src/Log/Sending.antt =====
-- `send_logs` empties the ring, in its order.
use mathlib.Core.List.{append-nil, append_assoc}
use agatha.Prelude.{
  ℕ, zero, suc, ◌+◌, ◌-◌, ◌%◌, ◌<◌, ◌≤◌, ◌≡◌, ◌≢◌, refl, sym, ap, ◌∙◌, subst, arith, inl, inr, Bool,
  true, false, Bool-cases, ◌==◌, ==_iff, List, [], ◌∷◌, ◌++◌, length, All,
}
use agatha.Log.{
  log_size, data_size, Ring, copy_out, Sent, done, exited, no_fuel, with_message, send_len,
  send_loop,
}
use agatha.Log.Bytes.{
  ring_read, count, contents, InBuf, ring_read-add, copy_out-ring_read, length-copy_out,
}

-- The messages one after another.
abbrev pub joined : List (List ℕ) → List ℕ
joined [] = []
joined (m ∷ out) = m ++ joined out

-- Every message has a byte, and room in `rq.write.data`.
abbrev pub Small : List ℕ → Type 0
Small m = (0 < length m) × (length m ≤ data_size)

abbrev pub drained_at : Ring → ℕ → Ring
drained_at r x = record r { start = x }

-- The ring is empty.
abbrev pub drained : Ring → Ring
drained r = drained_at r r.end

count_after :
    (start end l : ℕ)
    → start < log_size
    → end < log_size
    → l ≤ (end + log_size - start) % log_size
    → l + (end + log_size - (start + l) % log_size) % log_size ≡ (end + log_size - start) % log_size
count_after start end l hs he le = omega arith

-- The part that is sent, and what is left.
module _ (r : Ring) (i : InBuf r) (h : r.start ≢ r.end) where
  abbrev sent : Ring
  sent = record r { start = (r.start + send_len r) % log_size }

  send_len-le :
      (send_len r ≤ count r)
      × (0 < send_len r)
      × (send_len r ≤ data_size)
      × (r.start + send_len r ≤ log_size)
  send_len-le =
      let hs = i.start_lt in
      let he = i.end_lt in (ground arith, ground arith, ground arith, ground arith)

  sent-count : send_len r + count sent ≡ count r
  sent-count = count_after r.start r.end (send_len r) i.start_lt i.end_lt send_len-le.0

  sent-contents : copy_out r.buf r.start (send_len r) ++ contents sent ≡ contents r
  sent-contents =
      ap (λ (x : List ℕ). x ++ contents sent)
        (copy_out-ring_read r.buf r.start (send_len r) send_len-le.3)
      ∙ sym (ring_read-add r.buf r.start (send_len r) (count sent) i.start_lt)
      ∙ ap (ring_read r.buf r.start) sent-count

  sent-Small : Small (copy_out r.buf r.start (send_len r))
  sent-Small =
      subst (λ n. (0 < n) × (n ≤ data_size)) (sym (length-copy_out r.buf r.start (send_len r)))
        (send_len-le.1, send_len-le.2)

-- The k-th message and those after it are accepted, `n` of them.
abbrev pub AllAccepted : (accepts : ℕ → Bool) → (k n : ℕ) → Type 0
AllAccepted accepts k n = (j : ℕ) → j < n → accepts (k + j) ≡ true

-- How `send_logs` may end: all is sent and accepted, or the process exits at the first message that is
-- not, with a first part of the bytes sent.
abbrev pub Ends : (accepts : ℕ → Bool) → ℕ → Ring → Sent → Type 0
Ends accepts k r (done r' out) =
    (r' ≡ drained r)
    × (joined out ≡ contents r)
    × All Small out
    × AllAccepted accepts k (length out)
Ends accepts k r (exited out) =
    (n : ℕ) × (length out ≡ suc n)
    × AllAccepted accepts k n
    × (accepts (k + n) ≡ false)
    × All Small out
    × (rest : List ℕ) × (joined out ++ rest ≡ contents r)
Ends accepts k r no_fuel = ⊥

plus_zero : (k : ℕ) → k + 0 ≡ k
plus_zero k = omega arith

plus_suc : (k j : ℕ) → k + suc j ≡ k + 1 + j
plus_suc k j = omega arith

more_accepted :
    (accepts : ℕ → Bool) (k n : ℕ)
    → accepts k ≡ true
    → AllAccepted accepts (k + 1) n
    → AllAccepted accepts k (suc n)
more_accepted accepts k n first later zero lt = ap accepts (plus_zero k) ∙ first
more_accepted accepts k n first later (suc j) lt = ap accepts (plus_suc k j) ∙ later j (omega arith)

nothing_sent :
    (accepts : ℕ → Bool) (k : ℕ) (r : Ring)
    → InBuf r
    → r.start ≡ r.end
    → Ends accepts k r (done r [])
nothing_sent accepts k r i e =
    let none_left : count r ≡ 0 = let he = i.end_lt in omega arith in
    (
      ap (λ x. drained_at r x) e,
      sym (ap (ring_read r.buf r.start) none_left),
      tt,
      (λ j lt. absurd (omega arith)),
    )

stopped :
    (accepts : ℕ → Bool) (k : ℕ) (r : Ring)
    → InBuf r
    → r.start ≢ r.end
    → accepts k ≡ false
    → Ends accepts k r (exited (copy_out r.buf r.start (send_len r) ∷ []))
stopped accepts k r i h no_more =
    let m = copy_out r.buf r.start (send_len r) in
    (
      0,
      refl,
      (λ j lt. absurd (omega arith)),
      ap accepts (plus_zero k) ∙ no_more,
      (sent-Small r i h, tt),
      contents (sent r i h),
      ap (λ (x : List ℕ). x ++ contents (sent r i h)) (append-nil m) ∙ sent-contents r i h,
    )

-- One message more in front.
with_message-Ends :
    (accepts : ℕ → Bool) (k : ℕ) (r : Ring) (i : InBuf r) (h : r.start ≢ r.end) (x : Sent)
    → accepts k ≡ true
    → Ends accepts (k + 1) (sent r i h) x
    → Ends accepts k r (with_message (copy_out r.buf r.start (send_len r)) x)
unfolding with_message
with_message-Ends accepts k r i h (done r' out) first (e, c, small, all) =
    let m = copy_out r.buf r.start (send_len r) in
    (
      e,
      ap (λ (x : List ℕ). m ++ x) c ∙ sent-contents r i h,
      (sent-Small r i h, small),
      more_accepted accepts k (length out) first all,
    )
with_message-Ends accepts k r i h (exited out) first (n, len, all, stop, small, rest, c) =
    let m = copy_out r.buf r.start (send_len r) in
    (
      suc n,
      ap suc len,
      more_accepted accepts k n first all,
      ap accepts (plus_suc k n) ∙ stop,
      (sent-Small r i h, small),
      rest,
      append_assoc m (joined out) rest ∙ ap (λ (x : List ℕ). m ++ x) c ∙ sent-contents r i h,
    )
with_message-Ends accepts k r i h no_fuel first e = absurd e

-- With both ends inside of the buffer, and more fuel than bytes in the ring, send_logs ends. Either
-- all messages are accepted, are the bytes of the ring in their order, and the ring is empty, or it
-- exits at the first message that is not accepted, with the messages being a first part of the bytes.
-- No message is empty or larger than the data of a serial request.
pub send_loop-Ends :
    (accepts : ℕ → Bool) (fuel k : ℕ) (r : Ring)
    → InBuf r
    → count r < fuel
    → Ends accepts k r (send_loop accepts fuel k r)
unfolding send_loop
send_loop-Ends accepts zero k r i lt = absurd (omega arith)
send_loop-Ends accepts (suc fuel) k r i lt = elim (Bool-cases (r.start == r.end)) [
  | inl e ↦ rw (e, send_loop) (nothing_sent accepts k r i ((==_iff _ _).0 e))
  | inr e ↦
      let h : r.start ≢ r.end = ground arith in
      elim (Bool-cases (accepts k)) [
        | inr no_more ↦ rw (e, no_more, send_loop) (stopped accepts k r i h no_more)
        | inl first ↦
            rw (e, first, send_loop)
              (with_message-Ends accepts k r i h (send_loop accepts fuel (k + 1) (sent r i h)) first
                (send_loop-Ends accepts fuel (k + 1) (sent r i h)
                  (record { start_lt = omega arith; end_lt = i.end_lt })
                  (omega (arith, sent-count r i h, send_len-le r i h))))
      ]
]
