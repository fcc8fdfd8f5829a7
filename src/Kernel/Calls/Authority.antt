-- ===== src/Kernel/Calls/Authority.antt =====
-- What a successful system call shows of the capabilities of the caller.
use agatha.Prelude.{ℕ, ◌≡◌, ◌≢◌, sym, ap, ◌∙◌, ==_iff, List, Option}
use agatha.Kernel.Links.{Ptr, nil}
use agatha.Kernel.State.{
  Cap, Slot, Kernel, Check, ok, cap_at, set_cap, ok_code, cap_write, obj_endpoint, bind-ok,
  check-ok, type_of-ok, ok-injective,
}
use agatha.Kernel.Caps.{find_cap}
use agatha.Kernel.Caps.Slots.{SameSlot, cap_at-set_cap, cap_at-set_cap_same}
use agatha.Kernel.Calls.{
  find_endpoint, may_either, may_write, endpoint_connect, sys_mesg, given_slot,
}
use agatha.Kernel.Run.{Clock}
use agatha.Kernel.Ipc.{mesg}

-- The caller has a capability to the endpoint that allows what it asks for.
pub record Holds (s : Kernel) (cid : ℕ) (allowed : ℕ → Check (Unit {0})) (e : Ptr) : Type 0 where
  pub slot : Slot
  pub found : find_cap s s.up cid ≡ ok slot
  pub permits : allowed (cap_at s slot).perm ≡ ok tt
  pub ne_nil : e ≢ nil
  pub leads : (cap_at s slot).obj ≡ e
  pub is_endpoint : s.type e ≡ obj_endpoint

find_endpoint-Holds :
    (s : Kernel) (cid : ℕ) (allowed : ℕ → Check (Unit {0})) (e : Ptr)
    → find_endpoint s cid allowed ≡ ok e
    → Holds s cid allowed e
unfolding find_endpoint
find_endpoint-Holds s cid allowed e h =
    let (c, found, h₁) = bind-ok (find_cap s s.up cid) _ h in
    let (u, permits, h₂) = bind-ok (allowed (cap_at s c).perm) _ h₁ in
    let (ne, h₃) = type_of-ok s (cap_at s c) _ h₂ in
    let (typed, h₄) = check-ok _ _ h₃ in
    let leads = ok-injective h₄ in
    record {
      slot = c;
      found = found;
      permits = permits;
      ne_nil = λ q. ne (leads ∙ q);
      leads = leads;
      is_endpoint = ap s.type (sym leads) ∙ (==_iff _ _).0 typed;
    }

-- A successful sys_endpoint_connect was called with a readable or writable capability to an endpoint
-- and a free slot, gives that slot the right to write to the endpoint and no other, and changes no
-- other capability.
pub endpoint_connect-Holds :
    (s t : Kernel) (cid nid r : ℕ)
    → endpoint_connect s cid nid ≡ ok (r, t)
    → (e : Ptr) × (n : Slot) × Holds s cid may_either e
      × (find_cap s s.up nid ≡ ok n)
      × ((cap_at s n).perm ≡ 0)
      × (r ≡ ok_code)
      × (t ≡ set_cap s n (record { perm = cap_write; obj = e }))
      × (cap_at t n ≡ record { perm = cap_write; obj = e })
      × ((d : Slot) → ¬ (SameSlot d n) → cap_at t d ≡ cap_at s d)
unfolding endpoint_connect
endpoint_connect-Holds s t cid nid r h =
    let (e, holds, h₁) = bind-ok (find_endpoint s cid may_either) _ h in
    let (n, found, h₂) = bind-ok (find_cap s s.up nid) _ h₁ in
    let (free, h₃) = check-ok _ _ h₂ in
    let eq = ok-injective h₃ in
    let given : Cap = record { perm = cap_write; obj = e } in
    let state : t ≡ set_cap s n given = sym (ap (λ (x : ℕ × Kernel). x.1) eq) in
    (
      e,
      n,
      find_endpoint-Holds s cid may_either e holds,
      found,
      (==_iff _ _).0 free,
      sym (ap (λ (x : ℕ × Kernel). x.0) eq),
      state,
      ap (λ k. cap_at k n) state ∙ cap_at-set_cap_same s n given,
      λ d ne. ap (λ k. cap_at k d) state ∙ cap_at-set_cap s n d given ne,
    )

-- A successful sys_mesg was called with a writable capability to an endpoint, and is mesg on that
-- endpoint.
sys_mesg-Holds :
    (c : Clock) (s t : Kernel) (to : ℕ) (rq : List ℕ) (cid r : ℕ)
    → sys_mesg c s to rq cid ≡ ok (r, t)
    → (e : Ptr) × (o : Option Slot) × Holds s to may_write e × (mesg c s e rq o ≡ ok (r, t))
unfolding sys_mesg
sys_mesg-Holds c s t to rq cid r h =
    let (e, holds, h₁) = bind-ok (find_endpoint s to may_write) _ h in
    let (o, given, h₂) = bind-ok (given_slot s cid) _ h₁ in
    (e, o, find_endpoint-Holds s to may_write e holds, h₂)
