-- ===== src/Log/Server.antt =====
-- The services and the requests of procs/log/log.c. What `snprintf` makes of a line is an argument.
pub mod Lines
pub mod InOrder
pub mod Slots
use agatha.Prelude.{
  ℕ, zero, suc, ltb, ◌*◌, ◌/◌, ◌+◌, ◌-◌, ◌^◌, Bool, true, false, leb, ◌==◌, if◌then◌else◌, Option,
  none, some, List, [], ◌∷◌, ◌++◌, length, take,
}
use agatha.Log.{Ring, add_log, Sent, done, exited, no_fuel, send_loop}

-- `struct service`; `no_pid` is -1.
pub record Service : Type 0 where
  pub pid : ℕ
  pub name : List ℕ

abbrev pub no_pid : ℕ
no_pid = 2 ^ 32 - 1

-- `sizeof(services[i].name)`
abbrev pub name_size : ℕ
name_size = 32

-- LOG_MAX_LEVEL
abbrev pub max_level : ℕ
max_level = 3

-- The lines that are logged.
pub record Format : Type 0 where
  pub registered : (pid : ℕ) → (name : List ℕ) → (i : ℕ) → List ℕ
  pub failed : (pid : ℕ) → (name : List ℕ) → List ℕ
  pub slot_line : (i : ℕ) → Service → List ℕ
  pub log_line : (level : ℕ) → Service → (mesg : List ℕ) → List ℕ

pub record Server : Type 0 where
  pub services : List Service
  pub ring : Ring

abbrev in_next : Service → Option (ℕ × List Service) → Option (ℕ × List Service)
in_next x none = none
in_next x (some (i, ys)) = some (suc i, x ∷ ys)

-- The name is written by `snprintf`: the first 32 characters, and a 0 behind them. Where there are so
-- many, the 0 is in the `pid` of the next slot; behind the last slot it is lost to the model.
abbrev pub stored : Service → Service
stored v = record v { name = take name_size v.name }

abbrev pub spill : (name : List ℕ) → List Service → List Service
spill name [] = []
spill name (x ∷ xs) =
    if ltb (length name) name_size then x ∷ xs else (record x { pid = x.pid / 256 * 256 }) ∷ xs

-- The first loop of `handle_register`: the slot that is taken.
unfoldable pub take_slot : List Service → Service → Option (ℕ × List Service)
take_slot [] v = none
take_slot (x ∷ xs) v =
    let rest = in_next x (take_slot xs v) in
    if x.pid == no_pid then some (0, stored v ∷ spill v.name xs) else rest

-- `find_service`
unfoldable pub find_service : List Service → (pid : ℕ) → Option Service
find_service [] pid = none
find_service (x ∷ xs) pid = let rest = find_service xs pid in if x.pid == pid then some x else rest

-- The second loop of `handle_register`.
abbrev pub slot_lines : Format → (i : ℕ) → List Service → List (List ℕ)
slot_lines F i [] = []
slot_lines F i (x ∷ xs) = F.slot_line i x ∷ slot_lines F (suc i) xs

abbrev pub add_lines : (fuel : ℕ) → Ring → List (List ℕ) → Option Ring
add_lines fuel r [] = some r
add_lines fuel r (x ∷ xs) = elim (add_log fuel r x) [ none ↦ none | some r' ↦ add_lines fuel r' xs ]

-- `send_logs`
abbrev pub send_logs : (eid : ℕ) → (accepts : ℕ → Bool) → (fuel k : ℕ) → Ring → Sent
send_logs eid accepts fuel k r = if eid == no_pid then exited [] else send_loop accepts fuel k r

-- What a request comes to: the server goes on, with the result that is replied, or exits. Each with the
-- messages to the serial port.
pub data Handled : Type 0 where
  goes_on : (s : Server) (ret : Option Bool) (out : List (List ℕ)) → Handled
  exits : (ret : Option Bool) (out : List (List ℕ)) → Handled
  out_of_fuel : Handled

-- `reply` before `send_logs`, and after it.
abbrev pub reply_first : List Service → Bool → Sent → Handled
reply_first services ret (done r out) =
    goes_on (record { services = services; ring = r }) (some ret) out
reply_first services ret (exited out) = exits (some ret) out
reply_first services ret no_fuel = out_of_fuel

abbrev pub reply_last : List Service → Bool → Sent → Handled
reply_last services ret (done r out) =
    goes_on (record { services = services; ring = r }) (some ret) out
reply_last services ret (exited out) = exits none out
reply_last services ret no_fuel = out_of_fuel

abbrev pub on_ring : Option Ring → (Ring → Handled) → Handled
on_ring none f = out_of_fuel
on_ring (some r) f = f r

module _ (F : Format) (eid : ℕ) (accepts : ℕ → Bool) (fuel k : ℕ) (s : Server) where
  -- `handle_register` after its first loop.
  abbrev pub answer_register : (from : ℕ) → (name : List ℕ) → Option (ℕ × List Service) → Handled
  answer_register from name (some (i, services)) =
      on_ring (add_log fuel s.ring (F.registered from name i))
        (λ r. reply_first services true (send_logs eid accepts fuel k r))
  answer_register from name none =
      on_ring (add_lines fuel s.ring (F.failed from name ∷ slot_lines F 0 s.services))
        (λ r. reply_first s.services false (send_logs eid accepts fuel k r))

  -- `handle_register`
  abbrev pub handle_register : (from : ℕ) → (name : List ℕ) → Handled
  handle_register from name =
      answer_register from name (take_slot s.services (record { pid = from; name = name }))

  -- `handle_log` with the service found.
  abbrev pub answer_log : (level : ℕ) → (mesg : List ℕ) → Option Service → Handled
  answer_log level mesg none = goes_on s (some false) []
  answer_log level mesg (some v) =
      if leb max_level level
      then goes_on s (some false) []
      else on_ring (add_log fuel s.ring (F.log_line level v mesg))
          (λ r. reply_last s.services true (send_logs eid accepts fuel k r))

  -- `handle_log`
  abbrev pub handle_log : (from level : ℕ) → (mesg : List ℕ) → Handled
  handle_log from level mesg = answer_log level mesg (find_service s.services from)

pub data Request : Type 0 where
  register : (from : ℕ) (name : List ℕ) → Request
  log : (from level : ℕ) (mesg : List ℕ) → Request
  other : Request

abbrev pub handle : Format → (eid : ℕ) → (ℕ → Bool) → (fuel k : ℕ) → Server → Request → Handled
handle F eid accepts fuel k s (register from name) =
    handle_register F eid accepts fuel k s from name
handle F eid accepts fuel k s (log from level mesg) =
    handle_log F eid accepts fuel k s from level mesg
handle F eid accepts fuel k s other = goes_on s none []

abbrev pub in_front : List (List ℕ) → Handled → Handled
in_front out (goes_on s ret more) = goes_on s ret (out ++ more)
in_front out (exits ret more) = exits ret (out ++ more)
in_front out out_of_fuel = out_of_fuel

-- The loop of `main` over the requests that arrive.
unfoldable pub serve :
    Format → (eid : ℕ) → (ℕ → Bool) → (fuel k : ℕ) → Server → List Request → Handled
serve F eid accepts fuel k s [] = goes_on s none []
serve F eid accepts fuel k s (q ∷ qs) = elim (handle F eid accepts fuel k s q) [
  | goes_on s' ret out ↦ in_front out (serve F eid accepts fuel (k + length out) s' qs)
  | exits ret out ↦ exits ret out
  | out_of_fuel ↦ out_of_fuel
]
