-- ===== src/Kernel/Ipc/RoundTrip.antt =====
-- A call from end to end: `mesg` of the client, the server's return from `recv`, its `reply`, and the
-- client's return from `mesg`.
use agatha.Prelude.{
  ℕ, ◌+◌, ◌-◌, ◌<◌, ◌≡◌, ◌≢◌, refl, sym, ap, ◌∙◌, subst, Bool, true, false, ◌&&◌, ◌==◌, arith,
  update, update-same, Option, none, List, [], ◌∷◌, ◌++◌, length, All,
}
use mathlib.Core.List.{append-nil}
use agatha.Kernel.Links.{Ptr, nil}
use agatha.Kernel.Links.Chain.{NotIn}
use agatha.Kernel.Links.Laws.{IsList}
use agatha.Kernel.Sched.{ProcState, min_time_slice}
use agatha.Kernel.State.{
  Slot, Label, Endpoint, Proc, Kernel, Check, ok, refuse, fault, ok_code, ok-injective,
}
use agatha.Kernel.Run.{Clock}
use agatha.Kernel.Ipc.{is_sending, is_awaiting, mesg, reply, resume, set_endpoint}
use agatha.Kernel.Ipc.Call.{Sent, mesg-Sent}
use agatha.Kernel.Ipc.Receive.{Received, recv_round-Received, resume-in_recv}
use agatha.Kernel.Ipc.Reply.{Replied, reply-Replied}

-- Two runs of one call end in one state.
same_state :
    {x : Check (ℕ × Kernel)} {t u : Kernel} → x ≡ ok (ok_code, t) → x ≡ ok (ok_code, u) → t ≡ u
same_state e f = ap (λ (r : ℕ × Kernel). r.1) (ok-injective (sym e ∙ f))

-- The state of a process after the client `a` has sent and the server `b` is ready.
sent_state : (Ptr → ProcState) → (a b : Ptr) → Ptr → ProcState
sent_state f a b = update (update f a ProcState.block_send) b ProcState.ready

none_sending :
    (f : Ptr → ProcState) (a b : Ptr) (xs : List Ptr)
    → NotIn a xs
    → All (λ x. is_sending (f x) ≡ false) xs
    → All (λ x. is_sending (sent_state f a b x) ≡ false) xs
unfolding sent_state
none_sending f a b [] o h = tt
none_sending f a b (x ∷ xs) o h = (ground arith, none_sending f a b xs o.1 h.1)

client_sends : (f : Ptr → ProcState) (a b : Ptr) → b ≢ a → is_sending (sent_state f a b a) ≡ true
unfolding sent_state
client_sends f a b ne = ground arith

-- None of the others has the client's pid.
none_awaiting :
    (f : Ptr → ProcState) (g h : Ptr → Proc) (pid a b : ℕ) (xs : List Ptr)
    → NotIn a xs
    → NotIn b xs
    → ((x : Ptr) → x ≢ a → x ≢ b → h x ≡ g x)
    → All (λ x. (g x).pid ≢ pid) xs
    → All (λ x. (is_awaiting (f x) && (h x).pid == pid) ≡ false) xs
none_awaiting f g h pid a b [] o o' same d = tt
none_awaiting f g h pid a b (x ∷ xs) o o' same d =
    let e : ((h x).pid == pid) ≡ false = rw (same x o.0 o'.0) (differ (g x).pid pid d.0) in
    (no_match (is_awaiting (f x)) e, none_awaiting f g h pid a b xs o.1 o'.1 same d.1)
  where
    differ : (m n : ℕ) → m ≢ n → (m == n) ≡ false
    differ m n k = ground arith

    no_match : (t : Bool) {y : Bool} → y ≡ false → (t && y) ≡ false
    no_match true k = k
    no_match false k = refl

after_mesg : Kernel → Kernel
after_mesg s =
    let v = s.proc s.up in record s { proc = update s.proc s.up (record v { got = v.m }) }

-- The client copies the answer out.
resume-in_mesg :
    (c : Clock) (s : Kernel)
    → (s.proc s.up).label ≡ Label.in_mesg
    → resume c s ≡ ok (ok_code, after_mesg s)
unfolding resume
resume-in_mesg c s h = same (after_mesg s) (unfold after_mesg in refl)
  where
    same :
        (z : Kernel)
        → (let v = s.proc s.up in record s { proc = update s.proc s.up (record v { got = v.m }) })
          ≡ z
        → resume c s ≡ ok (ok_code, z)
    same z e = rw (h, resume) (ap (λ (k : Kernel). ok (ok_code, k)) e)

-- The state after a call that ends well, and the one before it otherwise.
abbrev pub left_by : Kernel → Check (ℕ × Kernel) → Kernel
left_by s (ok r) = r.1
left_by s refuse = s
left_by s fault = s

-- The state when the server has returned from `recv`.
abbrev pub served : (c c' : Clock) → Kernel → (e : Ptr) → (rq : List ℕ) → Kernel
served c c' s e rq = left_by s (resume c' (left_by s (mesg c s e rq none)))

module _ (c c' : Clock) (s : Kernel) (e b : Ptr) (rq answer : List ℕ) (o : Option Slot)
    (xs : List Ptr) (up : s.up ≢ nil) (waits : (s.endpoint e).rwait ≡ b) (ne : b ≢ nil)
    (other : b ≢ s.up) (slice : min_time_slice < s.sched.ts b + (s.sched.ts s.up - c.passed))
    (queue : IsList s.waits e xs) (new : NotIn s.up xs) (new' : NotIn b xs)
    (label : (s.proc b).label ≡ Label.in_recv e o) (no_signal : (s.proc b).bound_signal ≡ 0)
    (quiet : (s.endpoint e).signal ≡ 0)
    (before : All (λ x. is_sending (s.sched.state x) ≡ false) xs)
    (pids : All (λ x. (s.proc x).pid ≢ (s.proc s.up).pid) xs)
    (enough : length (xs ++ (s.up ∷ [])) < c'.fuel) (t : Kernel)
    (sends : mesg c s e rq none ≡ ok (ok_code, t)) where
  sent : Sent s e xs rq none b t
  sent =
      let (t', run, st) = mesg-Sent c s e b rq none xs up waits ne other slice queue new in
      subst (Sent s e xs rq none b) (same_state run sends) st

  server : t.proc t.up ≡ s.proc b
  server = rw (sent.up) (sent.others b other)

  -- The server's return from `recv`.
  receives :
      (u : Kernel) × (resume c' t ≡ ok (ok_code, u))
      × Received (set_endpoint t e (let v = t.endpoint e in record v { rwait = nil })) e s.up u
  receives =
      let v : Endpoint = (let v = t.endpoint e in record v { rwait = nil }) in
      let (u, run, got) =
        recv_round-Received c' (set_endpoint t e v) e xs s.up []
          (ap (λ (v : Proc). v.bound_signal) server ∙ no_signal)
          (ap (λ (v : Endpoint). v.signal) (update-same t.endpoint e v)
            ∙ ap (λ (f : Ptr → Endpoint). (f e).signal) sent.endpoint
            ∙ quiet)
          sent.queued
          (subst (λ (f : Ptr → ProcState). All (λ x. is_sending (f x) ≡ false) xs) (sym sent.state)
            (unfold sent_state in none_sending s.sched.state s.up b xs new before))
          (subst (λ (f : Ptr → ProcState). is_sending (f s.up) ≡ true) (sym sent.state)
            (unfold sent_state in client_sends s.sched.state s.up b other))
          enough up sent.give o in
      (u, resume-in_recv c' t e o (ap (λ (v : Proc). v.label) server ∙ label) ∙ run, got)

  module _ (u : Kernel) (returns : resume c' t ≡ ok (ok_code, u))
      (slice' : min_time_slice < u.sched.ts s.up + (u.sched.ts b - c'.passed)) where
    got : Received (set_endpoint t e (let v = t.endpoint e in record v { rwait = nil })) e s.up u
    got =
        let (u', run, r) = receives in
        subst
          (Received (set_endpoint t e (let v = t.endpoint e in record v { rwait = nil })) e s.up)
          (same_state run returns) r

    server_up : u.up ≡ b
    server_up = got.taken.up ∙ sent.up

    -- A process other than the two is as it was, and the client is as it was left by `mesg`.
    client : u.proc s.up ≡ t.proc s.up
    client = got.taken.others s.up (λ q. other (sym sent.up ∙ sym q))

    replies :
        (w : Kernel) × (reply c' u e ((s.proc s.up).pid) answer none ≡ ok (ok_code, w))
        × Replied u e s.up (xs ++ []) answer w
    replies =
        reply-Replied c' u e (s.proc s.up).pid answer none xs s.up [] (λ q. ne (sym server_up ∙ q))
          up (λ q. other (sym server_up ∙ sym q))
          (subst (λ k. IsList k e (xs ++ (s.up ∷ []))) (sym got.taken.waits) sent.queued)
          (none_awaiting u.sched.state s.proc u.proc (s.proc s.up).pid s.up b xs new new'
            (λ x n n'. got.taken.others x (λ q. n' (q ∙ sent.up)) ∙ sent.others x n) pids)
          (subst (λ (f : Ptr → ProcState). is_awaiting (f s.up) ≡ true) (sym got.taken.state)
            (ap is_awaiting (update-same t.sched.state s.up ProcState.block_reply)))
          (ap (λ (v : Proc). v.pid) client ∙ sent.pid) enough
          (subst (λ k. min_time_slice < u.sched.ts s.up + (u.sched.ts k - c'.passed))
            (sym server_up) slice')

    answers :
        (w : Kernel) × (z : Kernel) × ((u.proc b).got ≡ rq)
        × ((u.proc b).sender ≡ (s.proc s.up).pid)
        × (reply c' u e ((u.proc b).sender) answer none ≡ ok (ok_code, w))
        × (resume c' w ≡ ok (ok_code, z))
        × (z.up ≡ s.up)
        × ((z.proc s.up).got ≡ answer)
        × IsList z.waits e xs
    unfolding after_mesg
    answers =
        let (w, run, done) = replies in
        let v : Proc = w.proc w.up in
        let told : Proc = record v { got = v.m } in
        let sender = ap (λ k. (u.proc k).sender) (sym sent.up) ∙ got.taken.sender ∙ sent.pid in
        (
          w,
          record w { proc = update w.proc w.up told },
          ap (λ k. (u.proc k).got) (sym sent.up) ∙ got.taken.got ∙ sent.m,
          sender,
          subst (λ k. reply c' u e k answer none ≡ ok (ok_code, w)) (sym sender) run,
          resume-in_mesg c' w (
              ap (λ k. (w.proc k).label) done.up
              ∙ done.label
              ∙ ap (λ (v : Proc). v.label) client
              ∙ sent.label),
          done.up,
          ap (λ k. (update w.proc w.up told k).got) (sym done.up)
              ∙ ap (λ (v : Proc). v.got) (update-same w.proc w.up told)
              ∙ ap (λ k. (w.proc k).m) done.up
              ∙ done.m,
          subst (IsList w.waits e) (append-nil xs) done.queued,
        )

module _ (c c' : Clock) (s : Kernel) (e b : Ptr) (rq answer : List ℕ) (o : Option Slot)
    (xs : List Ptr) (up : s.up ≢ nil) (waits : (s.endpoint e).rwait ≡ b) (ne : b ≢ nil)
    (other : b ≢ s.up) (slice : min_time_slice < s.sched.ts b + (s.sched.ts s.up - c.passed))
    (queue : IsList s.waits e xs) (new : NotIn s.up xs) (new' : NotIn b xs)
    (label : (s.proc b).label ≡ Label.in_recv e o) (no_signal : (s.proc b).bound_signal ≡ 0)
    (quiet : (s.endpoint e).signal ≡ 0)
    (before : All (λ x. is_sending (s.sched.state x) ≡ false) xs)
    (pids : All (λ x. (s.proc x).pid ≢ (s.proc s.up).pid) xs)
    (enough : length (xs ++ (s.up ∷ [])) < c'.fuel) where
  -- A call that gives no capability, of a process that is up and not in the list of the endpoint, to
  -- another process that waits in recv at it with no signal for either, where the processes in the
  -- list are not sending, have other pids and are not the server, the list with the client at its end
  -- fits the fuel, and client and server have more than MIN_TIME_SLICE when they are given the
  -- processor: the client mesg, the return of the server from recv and its reply to the pid it was
  -- told end without a refusal or fault, the server has the message and the pid of the client, the
  -- client is up again with the answer copied out, and the list of the endpoint is what it was before.
  pub mesg-reply-round_trip :
      (let u = served c c' s e rq in min_time_slice < u.sched.ts s.up + (u.sched.ts b - c'.passed))
      → (t : Kernel) × (u : Kernel) × (w : Kernel) × (z : Kernel) × (mesg c s e rq none
          ≡ ok (ok_code, t))
        × (resume c' t ≡ ok (ok_code, u))
        × ((u.proc b).got ≡ rq)
        × ((u.proc b).sender ≡ (s.proc s.up).pid)
        × (reply c' u e ((u.proc b).sender) answer none ≡ ok (ok_code, w))
        × (resume c' w ≡ ok (ok_code, z))
        × (z.up ≡ s.up)
        × ((z.proc s.up).got ≡ answer)
        × IsList z.waits e xs
  mesg-reply-round_trip slice' =
      let (t, sends, st) = mesg-Sent c s e b rq none xs up waits ne other slice queue new in
      let (u, returns, got) =
        receives c c' s e b rq answer o xs up waits ne other slice queue new new' label no_signal
          quiet before pids enough t sends in
      let same : served c c' s e rq ≡ u =
        ap (λ x. left_by s (resume c' (left_by s x))) sends ∙ ap (left_by s) returns in
      let (w, z, got', sender, replied, resumed, is_up, answered, list) =
        answers c c' s e b rq answer o xs up waits ne other slice queue new new' label no_signal
          quiet before pids enough t sends u returns
          (subst (λ k. min_time_slice < k.sched.ts s.up + (k.sched.ts b - c'.passed)) same
            slice') in
      (t, u, w, z, sends, returns, got', sender, replied, resumed, is_up, answered, list)
