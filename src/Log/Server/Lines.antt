-- ===== src/Log/Server/Lines.antt =====
-- The lines that a request logs, and the empty ring that they go through.
use mathlib.Core.List.{append-nil, append_assoc}
use agatha.Prelude.{
  ℕ, zero, suc, ◌+◌, ◌%◌, ◌<◌, ◌≡◌, ◌≢◌, refl, sym, ap, ◌∙◌, arith, Bool, true, false,
  true-ne-false, ◌==◌, leb, if◌then◌else◌, Option, none, some, List, [], ◌∷◌, ◌++◌, length,
  length-append,
}
use agatha.Log.{log_size, Ring, Sent, done, exited, no_fuel}
use agatha.Log.Bytes.{ring_read, count, contents, InBuf}
use agatha.Log.Adding.{add_log-fits}
use agatha.Log.Sending.{joined, drained, Ends, send_loop-Ends}
use agatha.Log.Server.{
  Service, no_pid, max_level, Format, take_slot, find_service, slot_lines, add_lines, send_logs,
  Request, register, log, other,
}

abbrev pub register_lines :
    Format → List Service → (from : ℕ) → (name : List ℕ) → Option (ℕ × List Service) → List (List ℕ)
register_lines F services from name (some (i, ys)) = F.registered from name i ∷ []
register_lines F services from name none = F.failed from name ∷ slot_lines F 0 services

abbrev pub registered_after : List Service → Option (ℕ × List Service) → List Service
registered_after services (some (i, ys)) = ys
registered_after services none = services

abbrev pub log_lines : Format → (level : ℕ) → (mesg : List ℕ) → Option Service → List (List ℕ)
log_lines F level mesg none = []
log_lines F level mesg (some v) = if leb max_level level then [] else (F.log_line level v mesg ∷ [])

abbrev pub lines_of : Format → List Service → Request → List (List ℕ)
lines_of F services (register from name) =
    register_lines F services from name (take_slot services (record { pid = from; name = name }))
lines_of F services (log from level mesg) = log_lines F level mesg (find_service services from)
lines_of F services other = []

abbrev pub services_after : List Service → Request → List Service
services_after services (register from name) =
    registered_after services (take_slot services (record { pid = from; name = name }))
services_after services (log from level mesg) = services
services_after services other = services

-- All that is logged, with no ring.
abbrev pub logged : Format → List Service → List Request → List ℕ
logged F services [] = []
logged F services (q ∷ qs) =
    joined (lines_of F services q) ++ logged F (services_after services q) qs

-- No request logs more than the ring can hold.
abbrev pub Short : Format → List Service → List Request → Type 0
Short F services [] = Unit
Short F services (q ∷ qs) =
    (length (joined (lines_of F services q)) < log_size) × Short F (services_after services q) qs

-- The ring is empty between requests.
pub record Idle (r : Ring) : Type 0 where
  pub in_buf : InBuf r
  pub empty : r.start ≡ r.end

length-ring_read : (f : ℕ → ℕ) (a n : ℕ) → length (ring_read f a n) ≡ n
length-ring_read f a zero = refl
length-ring_read f a (suc n) = ap suc (length-ring_read f ((a + 1) % log_size) n)

pub Idle-contents : (r : Ring) → Idle r → (count r ≡ 0) × (contents r ≡ [])
Idle-contents r i =
    let hs = i.in_buf.start_lt in
    let e = i.empty in let c : count r ≡ 0 = omega arith in (c, ap (ring_read r.buf r.start) c)

pub joined-append : (a b : List (List ℕ)) → joined (a ++ b) ≡ joined a ++ joined b
joined-append [] b = refl
joined-append (m ∷ a) b =
    ap (λ (x : List ℕ). m ++ x) (joined-append a b) ∙ sym (append_assoc m (joined a) (joined b))

-- Lines that all have room.
pub add_lines-fits :
    (fuel : ℕ) (r : Ring) (lines : List (List ℕ))
    → InBuf r
    → count r + length (joined lines) < log_size
    → (r' : Ring) × (add_lines (suc (suc (suc fuel))) r lines ≡ some r')
      × InBuf r'
      × (contents r' ≡ contents r ++ joined lines)
add_lines-fits fuel r [] i room = (r, refl, i, sym (append-nil (contents r)))
add_lines-fits fuel r (x ∷ xs) i room =
    let n = length-append x (joined xs) in
    let (r₁, e₁, i₁, c₁) = add_log-fits fuel r x i (omega arith) in
    let m : count r₁ ≡ count r + length x =
      sym (length-ring_read r₁.buf r₁.start (count r₁))
      ∙ ap length c₁
      ∙ length-append (contents r) x
      ∙ ap (λ y. y + length x) (length-ring_read r.buf r.start (count r)) in
    let (r₂, e₂, i₂, c₂) = add_lines-fits fuel r₁ xs i₁ (omega arith) in
    (
      r₂,
      rw (e₁, add_lines) e₂,
      i₂,
      c₂ ∙ ap (λ (y : List ℕ). y ++ joined xs) c₁ ∙ append_assoc (contents r) x (joined xs),
    )

-- What `send_logs` ends in where every message is accepted.
drains :
    (accepts : ℕ → Bool) (k : ℕ) (r : Ring) (x : Sent)
    → ((j : ℕ) → accepts j ≡ true)
    → Ends accepts k r x
    → (out : List (List ℕ)) × (x ≡ done (drained r) out) × (joined out ≡ contents r)
drains accepts k r (done r' out) all (e, c, small, acc) = (out, ap (λ y. done y out) e, c)
drains accepts k r (exited out) all (n, len, acc, stop, small, rest, c) =
    absurd (true-ne-false (sym (all (k + n)) ∙ stop))
drains accepts k r no_fuel all e = absurd e

pub send_logs-drains :
    (eid : ℕ) (accepts : ℕ → Bool) (fuel k : ℕ) (r : Ring)
    → eid ≢ no_pid
    → ((j : ℕ) → accepts j ≡ true)
    → log_size < fuel
    → InBuf r
    → (out : List (List ℕ)) × (send_logs eid accepts fuel k r ≡ done (drained r) out)
      × (joined out ≡ contents r)
send_logs-drains eid accepts fuel k r eid_ok all enough i =
    let e : (eid == no_pid) ≡ false = ground arith in
    let (out, sent, c) =
      drains accepts k r _ all (send_loop-Ends accepts fuel k r i (omega arith)) in
    (out, rw e sent, c)

pub drained-Idle : (r : Ring) → InBuf r → Idle (drained r)
drained-Idle r i = record {
  in_buf = record { start_lt = i.end_lt; end_lt = i.end_lt };
  empty = refl;
}
