-- ===== src/Log.antt =====
-- The log server, procs/log/log.c: the ring of bytes that lines are added to and that is sent on to the
-- serial port, and the services that may log. A byte is a number, and the lines that `snprintf` builds
-- are arguments. `accepts k` says whether the k-th message to the serial port is answered with OK.
pub mod Bytes
pub mod Adding
pub mod Full
pub mod Server
pub mod Sending
pub mod Tests
use agatha.Prelude.{
  ℕ, zero, suc, ◌+◌, ◌-◌, ◌%◌, Bool, ◌&&◌, ltb, leb, ◌==◌, if◌then◌else◌, update, Option, none,
  some, List, [], ◌∷◌, length, take, drop,
}

-- `sizeof(buf)`
abbrev pub log_size : ℕ
log_size = 2048

-- `sizeof(rq.write.data)`
abbrev pub data_size : ℕ
data_size = 56

-- `buf`, `start` and `end`
pub record Ring : Type 0 where
  pub buf : ℕ → ℕ
  pub start : ℕ
  pub end : ℕ

-- `memcpy` into a buffer at `a`, and out of it.
unfoldable pub copy_in : (ℕ → ℕ) → (a : ℕ) → List ℕ → (ℕ → ℕ)
copy_in f a [] = f
copy_in f a (x ∷ xs) = copy_in (update f a x) (a + 1) xs

unfoldable pub copy_out : (ℕ → ℕ) → (a n : ℕ) → List ℕ
copy_out f a zero = []
copy_out f a (suc n) = f a ∷ copy_out f (a + 1) n

-- How much of `len` bytes a round of `add_log` takes, if it does not end the loop.
unfoldable pub part_len : Ring → (len : ℕ) → Option ℕ
part_len r len =
    if ltb r.end r.start && leb r.start (r.end + len)
    then none
    else if ltb log_size (r.end + len)
    then some (log_size - r.end)
    else some len

abbrev pub add_part : Ring → ℕ → List ℕ → Ring
add_part r l s = record r { buf = copy_in r.buf r.end (take l s); end = (r.end + l) % log_size }

-- `add_log`; `none` is out of fuel.
unfoldable pub add_log : (fuel : ℕ) → Ring → List ℕ → Option Ring
unfolding part_len
add_log zero r s = none
add_log (suc fuel) r [] = some r
add_log (suc fuel) r (x ∷ xs) = elim (part_len r (length (x ∷ xs))) [
  | none ↦ some r
  | some l ↦ add_log fuel (add_part r l (x ∷ xs)) (drop l (x ∷ xs))
]

-- What `send_logs` comes to: it returns, the process exits, or it is out of fuel. Each with the messages
-- that were sent.
pub data Sent : Type 0 where
  done : (r : Ring) (out : List (List ℕ)) → Sent
  exited : (out : List (List ℕ)) → Sent
  no_fuel : Sent

unfoldable pub with_message : List ℕ → Sent → Sent
with_message m (done r out) = done r (m ∷ out)
with_message m (exited out) = exited (m ∷ out)
with_message m no_fuel = no_fuel

-- `rq.write.len`
abbrev pub send_len : Ring → ℕ
send_len r =
    let len = if ltb r.start r.end then r.end - r.start else log_size - r.start in
    if ltb data_size len then data_size else len

-- The loop of `send_logs`.
unfoldable pub send_loop : (accepts : ℕ → Bool) → (fuel k : ℕ) → Ring → Sent
unfolding with_message
send_loop accepts zero k r = no_fuel
send_loop accepts (suc fuel) k r =
    let l = send_len r in
    let m = copy_out r.buf r.start l in
    let rest = send_loop accepts fuel (k + 1) (record r { start = (r.start + l) % log_size }) in
    if r.start == r.end
    then done r []
    else if accepts k
    then with_message m rest
    else exited (m ∷ [])
