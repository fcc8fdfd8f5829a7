-- ===== src/Log/Server/Slots.antt =====
-- The services of procs/log/log.c as a map from process ids to names.
use agatha.Prelude.{
  zero, suc, ap, ℕ, ◌≡◌, ◌≢◌, refl, sym, ◌∙◌, subst, arith, true, false, Bool-cases, inl, inr, ◌==◌,
  Option, none, some, List, [], ◌∷◌, length, take, ltb, ◌<◌,
}
use agatha.Log.Server.{Service, no_pid, take_slot, in_next, find_service, name_size, stored, spill}

-- `ys` is `xs` with `v` registered.
pub record Registered (xs : List Service) (v : Service) (ys : List Service) : Type 0 where
  pub found : find_service ys v.pid ≡ some v
  pub others : (pid : ℕ) → pid ≢ v.pid → pid ≢ no_pid → find_service ys pid ≡ find_service xs pid

second :
    {i j : ℕ} {xs ys : List Service}
    → ◌≡◌ {A = Option (ℕ × List Service)} (some (i, xs)) (some (j, ys))
    → ys ≡ xs
second e = cc

find_service-hit :
    (x : Service) (xs : List Service) (pid : ℕ) → x.pid ≡ pid → find_service (x ∷ xs) pid ≡ some x
unfolding find_service
find_service-hit x xs pid e = let t : (x.pid == pid) ≡ true = ground arith in rw t refl

find_service-miss :
    (x : Service) (xs : List Service) (pid : ℕ)
    → x.pid ≢ pid
    → find_service (x ∷ xs) pid ≡ find_service xs pid
unfolding find_service
find_service-miss x xs pid h = let t : (x.pid == pid) ≡ false = ground arith in rw t refl

take_short : (n : ℕ) (xs : List ℕ) → length xs < n → take n xs ≡ xs
take_short zero xs h = absurd (omega arith)
take_short (suc n) [] h = refl
take_short (suc n) (x ∷ xs) h = ap (λ (l : List ℕ). x ∷ l) (take_short n xs (omega arith))

spill-short : (name : List ℕ) (xs : List Service) → length name < name_size → spill name xs ≡ xs
spill-short name [] h = refl
spill-short name (x ∷ xs) h = let t : ltb (length name) name_size ≡ true = ground arith in rw t refl

stored-short :
    (v : Service) (xs : List Service)
    → length v.name < name_size
    → stored v ∷ spill v.name xs ≡ v ∷ xs
stored-short v xs h =
    ap (λ (n : List ℕ). (record v { name = n }) ∷ spill v.name xs) (take_short name_size v.name h)
    ∙ ap (λ (l : List Service). v ∷ l) (spill-short v.name xs h)

take_slot-here :
    (x : Service) (xs : List Service) (v : Service) (i : ℕ) (ys : List Service)
    → x.pid ≡ no_pid
    → take_slot (x ∷ xs) v ≡ some (i, ys)
    → length v.name < name_size
    → ys ≡ v ∷ xs
unfolding take_slot
take_slot-here x xs v i ys h e short =
    let t : (x.pid == no_pid) ≡ true = ground arith in
    second (rw (t, take_slot) at e) ∙ stored-short v xs short

take_slot-next :
    (x : Service) (xs : List Service) (v : Service)
    → x.pid ≢ no_pid
    → take_slot (x ∷ xs) v ≡ in_next x (take_slot xs v)
unfolding take_slot
take_slot-next x xs v h = let t : (x.pid == no_pid) ≡ false = ground arith in rw (t, take_slot) refl

-- A service in front that is not the one looked for.
Registered-next :
    (x : Service) (xs : List Service) (v : Service) (zs : List Service)
    → x.pid ≢ v.pid
    → Registered xs v zs
    → Registered (x ∷ xs) v (x ∷ zs)
Registered-next x xs v zs h m = record {
  found = find_service-miss x zs v.pid h ∙ m.found;
  others = λ pid a b. elim (Bool-cases (x.pid == pid)) [
    | inl e ↦
        let same : x.pid ≡ pid = ground arith in
        find_service-hit x zs pid same ∙ sym (find_service-hit x xs pid same)
    | inr e ↦
        let apart : x.pid ≢ pid = ground arith in
        find_service-miss x zs pid apart ∙ m.others pid a b ∙ sym (find_service-miss x xs pid apart)
  ];
}

Registered-here :
    (x : Service) (xs : List Service) (v : Service)
    → x.pid ≡ no_pid
    → Registered (x ∷ xs) v (v ∷ xs)
Registered-here x xs v h = record {
  found = find_service-hit v xs v.pid refl;
  others = λ pid a b.
      find_service-miss v xs pid (λ e. a (sym e))
      ∙ sym (find_service-miss x xs pid (λ e. b (sym e ∙ h)));
}

not_hit :
    (x : Service) (xs : List Service) (pid : ℕ) → find_service (x ∷ xs) pid ≡ none → x.pid ≢ pid
not_hit x xs pid free e = some-ne-none (sym (find_service-hit x xs pid e) ∙ free)
  where
    some-ne-none : {v : Service} → some v ≡ none → ⊥
    some-ne-none e = cc

in_next-some :
    (x : Service) (o : Option (ℕ × List Service)) (i : ℕ) (ys : List Service)
    → in_next x o ≡ some (i, ys)
    → (j : ℕ) × (zs : List Service) × (o ≡ some (j, zs)) × (ys ≡ x ∷ zs)
in_next-some x none i ys e = absurd (cc)
in_next-some x (some (j, zs)) i ys e = (j, zs, refl, second e)

-- Registering a process that find_service does not find, with a name shorter than the 32 bytes for it,
-- makes find_service find it with its name, and changes what it finds for no other process.
take_slot-Registered :
    (xs : List Service) (v : Service) (i : ℕ) (ys : List Service)
    → length v.name < name_size
    → find_service xs v.pid ≡ none
    → take_slot xs v ≡ some (i, ys)
    → Registered xs v ys
unfolding take_slot
take_slot-Registered [] v i ys short free e = absurd (cc)
take_slot-Registered (x ∷ xs) v i ys short free e = elim (Bool-cases (x.pid == no_pid)) [
  | inl q ↦
      let h : x.pid ≡ no_pid = ground arith in
      subst (Registered (x ∷ xs) v) (sym (take_slot-here x xs v i ys h e short))
        (Registered-here x xs v h)
  | inr q ↦
      let h : x.pid ≢ no_pid = ground arith in
      let (j, zs, taken, same) =
        in_next-some x (take_slot xs v) i ys (sym (take_slot-next x xs v h) ∙ e) in
      let apart = not_hit x xs v.pid free in
      subst (Registered (x ∷ xs) v) (sym same) (
        Registered-next x xs v zs apart (
          take_slot-Registered xs v j zs short (sym (find_service-miss x xs v.pid apart) ∙ free)
            taken))
]
