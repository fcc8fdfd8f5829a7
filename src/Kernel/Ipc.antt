-- ===== src/Kernel/Ipc.antt =====
-- Messages between processes: `endpoint_get_pending`, `recv`, `reply`, `mesg` and `signal` of sys/sys.c
-- and the system calls around them. A call that gives up the processor ends with the next process up;
-- `resume` is what a process does when it comes back from `schedule`.
pub mod Pending
pub mod Call
pub mod Receive
pub mod Reply
pub mod RoundTrip
pub mod Tests
use agatha.Prelude.{
  ℕ, zero, suc, ◌+◌, ◌/◌, ◌%◌, ◌^◌, Bool, true, false, not, ◌&&◌, ◌||◌, ◌==◌, if◌then◌else◌, update,
  Option, none, some, List, [], ◌∷◌, drop, bit_or,
}
use agatha.Kernel.Links.{Ptr, nil, enqueue, unlink}
use agatha.Kernel.Sched.{Sched, ProcState}
use agatha.Kernel.State.{
  Cap, no_cap, Slot, Label, Endpoint, Proc, Kernel, Check, ok, refuse, fault, ◌>>=◌, ◌>>◌, check,
  safe, Sys, ok_code, err_code, cap_at, set_cap, has_read, has_write, type_of, obj_endpoint,
}
use agatha.Kernel.Caps.{find_cap}
use agatha.Kernel.Run.{Clock, proc_ready, schedule}

abbrev pub set_state : Kernel → Ptr → ProcState → Kernel
set_state s p v = let d = s.sched in record s { sched = record d { state = update d.state p v } }

abbrev pub set_proc : Kernel → Ptr → Proc → Kernel
set_proc s p v = record s { proc = update s.proc p v }

abbrev pub set_endpoint : Kernel → Ptr → Endpoint → Kernel
set_endpoint s e v = record s { endpoint = update s.endpoint e v }

-- The first of the processes from `p` on that passes the test, or nil; `none` is out of fuel.
unfoldable pub walk : ℕ → (Ptr → Bool) → (Ptr → Ptr) → Ptr → Option Ptr
walk zero test next p = none
walk (suc fuel) test next p =
    let later = walk fuel test next (next p) in
    if p == nil then some nil else if test p then some p else later

abbrev pub is_sending : ProcState → Bool
is_sending ProcState.block_send = true
is_sending ProcState.fault = false
is_sending ProcState.ready = false
is_sending ProcState.block_recv = false
is_sending ProcState.block_reply = false

abbrev pub is_awaiting : ProcState → Bool
is_awaiting ProcState.block_reply = true
is_awaiting ProcState.fault = false
is_awaiting ProcState.ready = false
is_awaiting ProcState.block_recv = false
is_awaiting ProcState.block_send = false

abbrev pub is_receiving : ProcState → Bool
is_receiving ProcState.block_recv = true
is_receiving ProcState.fault = false
is_receiving ProcState.ready = false
is_receiving ProcState.block_send = false
is_receiving ProcState.block_reply = false

-- `((uint32_t *) m)[0] = v` in a buffer of bytes.
abbrev pub set_word : ℕ → List ℕ → List ℕ
set_word v m = v % 256 ∷ v / 2 ^ 8 % 256 ∷ v / 2 ^ 16 % 256 ∷ v / 2 ^ 24 % 256 ∷ drop 4 m

-- What the running process is told: the sender's pid and its message.
abbrev pub tell : Kernel → ℕ → List ℕ → Kernel
tell s from m = let v = s.proc s.up in set_proc s s.up (record v { sender = from; got = m })

-- `PID_SIGNAL`
abbrev pub pid_signal : ℕ
pid_signal = 0

-- The capability at `g` goes to `o`.
unfoldable pub move_cap : Kernel → (g o : Slot) → Kernel
move_cap s g o = set_cap (set_cap s o (cap_at s g)) g no_cap

-- The part of `endpoint_get_pending` for a sender that was found: it panics if there is a capability
-- and no place for it.
unfoldable pub take_message : Kernel → Ptr → Option Slot → Check Kernel
take_message s p o =
    let s' = tell (set_state s p ProcState.block_reply) (s.proc p).pid (s.proc p).m in
    elim ((s.proc p).give) [
      | none ↦ ok s'
      | some g ↦
          if (cap_at s g).perm == 0
          then ok s'
          else elim o [ none ↦ fault | some o' ↦ ok (move_cap s' g o') ]
    ]

-- `endpoint_get_pending`: the new state and whether there was anything.
unfoldable pub get_pending : ℕ → Kernel → Ptr → Option Slot → Check (Kernel × Bool)
get_pending fuel s e o =
    let v = s.endpoint e in
    if v.signal == 0
    then elim (walk fuel (λ p. is_sending (s.sched.state p)) s.waits.next (s.waits.head e)) [
      | none ↦ fault
      | some p ↦ if p == nil then ok (s, false) else (do s' ← take_message s p o; ok (s', true))
    ]
    else ok (
      set_endpoint (tell s pid_signal (set_word v.signal (s.proc s.up).got)) e
          (record v { signal = 0 }),
      true,
    )

-- One round of the loop of `recv`. It panics where another process is already waiting.
unfoldable pub recv_round : Clock → Kernel → Ptr → Option Slot → Sys
recv_round c s e o =
    let me = s.proc s.up in
    if me.bound_signal == 0
    then (do
      (s', got) ← get_pending c.fuel s e o
      let v = s'.endpoint e
      if got then ok (ok_code, set_endpoint s' e (record v { rwait = nil })) else (do
        safe (v.rwait == nil)
        t ←
            schedule c (Label.in_recv e o) nil
              (set_state (set_endpoint s' e (record v { rwait = s.up })) s.up ProcState.block_recv)
        ok (ok_code, t)))
    else ok (
      ok_code,
      set_proc s s.up (record me {
        bound_signal = 0;
        sender = pid_signal;
        got = set_word me.bound_signal me.got;
      }),
    )

-- `recv`
unfoldable pub recv : Clock → Kernel → Ptr → Option Slot → Sys
recv c s e o = do
  let bound = (s.endpoint e).bound
  check (bound == nil || bound == s.up)
  recv_round c s e o

-- The capability that a reply hands over, if the client takes one.
unfoldable pub hand_over : Kernel → Ptr → Option Slot → Kernel
hand_over s p o = elim o [
  | none ↦ s
  | some o' ↦ elim ((s.proc p).give) [ none ↦ s | some g ↦ move_cap s o' g ]
]

-- `reply`
unfoldable pub reply : Clock → Kernel → Ptr → ℕ → List ℕ → Option Slot → Sys
reply c s e pid m o =
    let waits_for = λ (p : Ptr). is_awaiting (s.sched.state p) && (s.proc p).pid == pid in
    elim (walk c.fuel waits_for s.waits.next (s.waits.head e)) [
      | none ↦ fault
      | some p ↦ do
        check (not (p == nil))
        let v = s.proc p
        let s₁ = set_proc (record s { waits = unlink s.waits e p }) p (record v { m = m })
        let s₂ = hand_over s₁ p o
        t ← schedule c Label.in_return p (record s₂ { sched = proc_ready s₂.sched p })
        ok (ok_code, t)
    ]

-- `mesg`
unfoldable pub mesg : Clock → Kernel → Ptr → List ℕ → Option Slot → Sys
mesg c s e rq o = do
  let me = s.proc s.up
  let s₁ = set_state (set_proc s s.up (record me { m = rq; give = o })) s.up ProcState.block_send
  let s₂ = record s₁ { waits = enqueue s₁.waits e s.up }
  let p = (s₂.endpoint e).rwait
  t ←
      schedule c Label.in_mesg p
        (if p == nil then s₂ else record s₂ { sched = proc_ready s₂.sched p })
  ok (ok_code, t)

-- `signal`, with `uint32_t` sets of signals.
unfoldable pub signal : Clock → Kernel → Ptr → ℕ → Sys
signal c s e v =
    let n = s.endpoint e in
    if n.bound == nil
    then (let s' = set_endpoint s e (record n { signal = bit_or n.signal v }) in
        if n.rwait == nil then ok (ok_code, s') else (do
          t ← schedule c Label.in_return n.rwait (record s' { sched = proc_ready s'.sched n.rwait })
          ok (ok_code, t)))
    else (let b = s.proc n.bound in
        let s' = set_proc s n.bound (record b { bound_signal = bit_or b.bound_signal v }) in
        if is_receiving (s.sched.state n.bound)
        then (do
          t ← schedule c Label.in_return n.bound (record s' { sched = proc_ready s'.sched n.bound })
          ok (ok_code, t))
        else ok (ok_code, s'))

-- What the process that is up does when it comes back from `schedule`, up to its next call of it or its
-- return to user code.
unfoldable pub resume : Clock → Kernel → Sys
resume c s =
    let me = s.proc s.up in
    elim me.label [
      | Label.empty ↦ fault
      | Label.start pc sp ↦ ok (ok_code, s)
      | Label.in_mesg ↦ ok (ok_code, set_proc s s.up (record me { got = me.m }))
      | Label.in_recv e o ↦
          let v = s.endpoint e in recv_round c (set_endpoint s e (record v { rwait = nil })) e o
      | Label.in_return ↦ ok (ok_code, s)
      | Label.in_exit ↦ fault
    ]
