-- ===== src/Log/Tests.antt =====
-- The log server at small inputs.
use agatha.Prelude.{ℕ, ◌≡◌, refl, arith, Bool, true, leb, Option, none, some, List, [], ◌∷◌}
use agatha.Log.{Ring, send_loop}
use agatha.Log.Adding.{Adds, add_log-fits}
use agatha.Log.Full.{add_log-overwrites}
use agatha.Log.Sending.{Ends, send_loop-Ends, joined}
use agatha.Log.Server.{
  Service, no_pid, Format, Server, take_slot, find_service, goes_on, Request, register, log, other,
  serve,
}
use agatha.Log.Server.Lines.{Idle, logged}
use agatha.Log.Server.InOrder.{serve-in_order}

abbrev a_ring : (start end : ℕ) → Ring
a_ring start end = record { buf = λ x. x; start = start; end = end }

-- Around the end of the buffer.
add_log-fits_example : Adds 3 (a_ring 2046 2047) (7 ∷ 8 ∷ []) (2046 ∷ 7 ∷ 8 ∷ [])
add_log-fits_example =
    add_log-fits 0 (a_ring 2046 2047) (7 ∷ 8 ∷ [])
      (record { start_lt = omega arith; end_lt = omega arith }) (omega arith)

add_log-overwrites_example : Adds 3 (a_ring 0 2047) (7 ∷ 8 ∷ []) (8 ∷ [])
add_log-overwrites_example =
    add_log-overwrites 0 (a_ring 0 2047) (7 ∷ 8 ∷ [])
      (record { start_lt = omega arith; end_lt = omega arith }) refl (omega arith) (omega arith)

send_loop-Ends_example :
    Ends (λ k. leb 1 k) 0 (a_ring 2047 2) (send_loop (λ k. leb 1 k) 4 0 (a_ring 2047 2))
send_loop-Ends_example =
    send_loop-Ends (λ k. leb 1 k) 4 0 (a_ring 2047 2)
      (record { start_lt = omega arith; end_lt = omega arith }) (omega arith)

abbrev free_slots : List Service
free_slots = record { pid = 9; name = [] } ∷ record { pid = no_pid; name = [] } ∷ []

abbrev a_format : Format
a_format = record {
  registered = λ pid name i. pid ∷ i ∷ [];
  failed = λ pid name. pid ∷ [];
  slot_line = λ i v. i ∷ v.pid ∷ [];
  log_line = λ level v mesg. level ∷ v.pid ∷ mesg;
}

abbrev a_server : Server
a_server = record { services = free_slots; ring = a_ring 2047 2047 }

-- A service registers and logs twice, once with a level that is not there; the next finds no slot.
abbrev requests : List Request
requests = register 5 (65 ∷ []) ∷ log 5 2 (70 ∷ []) ∷ log 5 3 (71 ∷ []) ∷ register 6 [] ∷ other ∷ []

requests-logged : logged a_format free_slots requests ≡ 5 ∷ 1 ∷ 2 ∷ 5 ∷ 70 ∷ 6 ∷ 0 ∷ 9 ∷ 1 ∷ 5 ∷ []
unfolding take_slot find_service
requests-logged = refl

serve-in_order_example :
    (s' : Server) × (ret : Option Bool) × (out : List (List ℕ)) × (serve a_format 1
        (λ k. true)
        2051
        0
        a_server
        requests
      ≡ goes_on s' ret out)
    × Idle s'.ring
    × (joined out ≡ logged a_format free_slots requests)
unfolding take_slot find_service
serve-in_order_example =
    serve-in_order a_format 1 (λ k. true) 2048 0 a_server requests (omega arith) (λ j. refl)
      (omega arith)
      (record { in_buf = record { start_lt = omega arith; end_lt = omega arith }; empty = refl })
      (omega arith, (omega arith, (omega arith, (omega arith, (omega arith, tt)))))

abbrev a_service : Service
a_service = record { pid = 5; name = 65 ∷ [] }

slot_taken :
    take_slot free_slots a_service ≡ some (1, record { pid = 9; name = [] } ∷ a_service ∷ [])
unfolding take_slot
slot_taken = refl

not_there : find_service free_slots 5 ≡ none
unfolding find_service
not_there = refl
