-- ===== src/Log/Server/InOrder.antt =====
-- The server as it looks from outside: the lines of the requests come out in their order.
use agatha.Prelude.{
  ℕ, suc, ◌+◌, ◌<◌, ◌≤◌, ◌≡◌, ◌≢◌, refl, sym, ap, ◌∙◌, subst, arith, Bool, true, false, Bool-cases,
  inl, inr, leb, Option, none, some, List, [], ◌∷◌, ◌++◌, length,
}
use agatha.Log.{log_size, Ring, done}
use agatha.Log.Sending.{joined, drained}
use agatha.Log.Server.{
  Service, no_pid, max_level, Format, Server, take_slot, find_service, slot_lines, add_lines,
  send_logs, Handled, goes_on, reply_first, reply_last, on_ring, answer_register, answer_log,
  Request, register, log, other, handle, in_front, serve,
}
use agatha.Log.Server.Lines.{
  register_lines, registered_after, log_lines, lines_of, services_after, logged, Short, Idle,
  Idle-contents, joined-append, add_lines-fits, send_logs-drains, drained-Idle,
}

-- What a request logs, what it changes, and what it is answered.
-- The server goes on, with these services, and has sent these lines.
abbrev pub Steps : Handled → List Service → List (List ℕ) → Type 0
Steps x services lines =
    (s' : Server) × (ret : Option Bool) × (out : List (List ℕ)) × (x ≡ goes_on s' ret out)
    × (s'.services ≡ services)
    × Idle s'.ring
    × (joined out ≡ joined lines)

one_added :
    (x : Option Ring) (r : Ring)
    → (elim x [ none ↦ none | some r' ↦ some r' ]) ≡ some r
    → x ≡ some r
one_added none r e = e
one_added (some r') r e = e

module _ (F : Format) (eid : ℕ) (accepts : ℕ → Bool) (fuel k : ℕ) (s : Server)
    (eid_ok : eid ≢ no_pid) (all : (j : ℕ) → accepts j ≡ true) (enough : log_size ≤ fuel)
    (idle : Idle s.ring) where
  abbrev enough_fuel : ℕ
  enough_fuel = suc (suc (suc fuel))

  -- The lines are added to the empty ring and sent.
  sends_lines :
      (lines : List (List ℕ))
      → length (joined lines) < log_size
      → (r : Ring) × (out : List (List ℕ)) × (add_lines enough_fuel s.ring lines ≡ some r)
        × (send_logs eid accepts enough_fuel k r ≡ done (drained r) out)
        × Idle (drained r)
        × (joined out ≡ joined lines)
  sends_lines lines short =
      let (c, e) = Idle-contents s.ring idle in
      let (r, added, i, held) = add_lines-fits fuel s.ring lines idle.in_buf (omega arith) in
      let (out, sent, j) =
        send_logs-drains eid accepts enough_fuel k r eid_ok all (omega arith) i in
      (r, out, added, sent, drained-Idle r i, j ∙ held ∙ ap (λ (x : List ℕ). x ++ joined lines) e)

  answer_register-Steps :
      (from : ℕ) (name : List ℕ) (o : Option (ℕ × List Service))
      → length (joined (register_lines F s.services from name o)) < log_size
      → Steps
          (answer_register F eid accepts enough_fuel k s from name o)
          (registered_after s.services o)
          (register_lines F s.services from name o)
  answer_register-Steps from name none short =
      let (r, out, added, sent, i, j) =
        sends_lines (F.failed from name ∷ slot_lines F 0 s.services) short in
      (
        record { services = s.services; ring = drained r },
        some false,
        out,
        ap
              (λ x.
                on_ring x
                  (λ r. reply_first s.services false (send_logs eid accepts enough_fuel k r)))
              added
            ∙ ap (reply_first s.services false) sent,
        refl,
        i,
        j,
      )
  answer_register-Steps from name (some (n, ys)) short =
      let (r, out, added, sent, i, j) = sends_lines (F.registered from name n ∷ []) short in
      (
        record { services = ys; ring = drained r },
        some true,
        out,
        ap (λ x. on_ring x (λ r. reply_first ys true (send_logs eid accepts enough_fuel k r)))
              (one_added _ r added)
            ∙ ap (reply_first ys true) sent,
        refl,
        i,
        j,
      )

  answer_log-Steps :
      (level : ℕ) (mesg : List ℕ) (o : Option Service)
      → length (joined (log_lines F level mesg o)) < log_size
      → Steps
          (answer_log F eid accepts enough_fuel k s level mesg o)
          s.services
          (log_lines F level mesg o)
  answer_log-Steps level mesg none short = (s, some false, [], refl, refl, idle, refl)
  answer_log-Steps level mesg (some v) short = elim (Bool-cases (leb max_level level)) [
    | inl e ↦ rw e (s, some false, [], refl, refl, idle, refl)
    | inr e ↦
        let short' : length (joined (F.log_line level v mesg ∷ [])) < log_size = rw e at short in
        let (r, out, added, sent, i, j) = sends_lines (F.log_line level v mesg ∷ []) short' in
        rw e (
          record { services = s.services; ring = drained r },
          some true,
          out,
          ap
                (λ x.
                  on_ring x
                    (λ r. reply_last s.services true (send_logs eid accepts enough_fuel k r)))
                (one_added _ r added)
              ∙ ap (reply_last s.services true) sent,
          refl,
          i,
          j,
        )
  ]

  handle-Steps :
      (q : Request)
      → length (joined (lines_of F s.services q)) < log_size
      → Steps
          (handle F eid accepts enough_fuel k s q)
          (services_after s.services q)
          (lines_of F s.services q)
  handle-Steps (register from name) short =
      answer_register-Steps from name (take_slot s.services (record { pid = from; name = name }))
        short
  handle-Steps (log from level mesg) short =
      answer_log-Steps level mesg (find_service s.services from) short
  handle-Steps other short = (s, none, [], refl, refl, idle, refl)

-- A server with an empty ring, an endpoint for the serial port and every message to it accepted, where
-- no request logs as much as the buffer holds, handles any sequence of requests to the end, with its
-- ring empty again, and the messages to the serial port are the lines of the requests one after
-- another in their order, as if there were no ring: a registration logs its slot or the table of all
-- slots, and a log request of a registered process with a valid level its line.
pub serve-in_order :
    (F : Format) (eid : ℕ) (accepts : ℕ → Bool) (fuel k : ℕ) (s : Server) (qs : List Request)
    → eid ≢ no_pid
    → ((j : ℕ) → accepts j ≡ true)
    → log_size ≤ fuel
    → Idle s.ring
    → Short F s.services qs
    → (s' : Server) × (ret : Option Bool) × (out : List (List ℕ)) × (serve F eid accepts
          (suc (suc (suc fuel)))
          k
          s
          qs
        ≡ goes_on s' ret out)
      × Idle s'.ring
      × (joined out ≡ logged F s.services qs)
unfolding serve
serve-in_order F eid accepts fuel k s [] eid_ok all enough idle short =
    (s, none, [], refl, idle, refl)
serve-in_order F eid accepts fuel k s (q ∷ qs) eid_ok all enough idle (short, later) =
    let (s₁, ret₁, out₁, e₁, same, idle₁, j₁) =
      handle-Steps F eid accepts fuel k s eid_ok all enough idle q short in
    let (s₂, ret₂, out₂, e₂, idle₂, j₂) =
      serve-in_order F eid accepts fuel (k + length out₁) s₁ qs eid_ok all enough idle₁
        (subst (λ x. Short F x qs) (sym same) later) in
    (
      s₂,
      ret₂,
      out₁ ++ out₂,
      rw (e₁, serve) (ap (in_front out₁) e₂),
      idle₂,
      joined-append out₁ out₂
          ∙ ap (λ (x : List ℕ). x ++ joined out₂) j₁
          ∙ ap (λ (x : List ℕ). joined (lines_of F s.services q) ++ x)
              (j₂ ∙ ap (λ x. logged F x qs) same),
    )
