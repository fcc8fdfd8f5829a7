-- ===== src/Prelude/Maps.antt =====
-- A field of every object of one C type is a function from addresses; an assignment `p->f = v`
-- updates it at one address.
use Prim.Native.Nat.{ℕ}
use mathlib.Core.Path.{◌≡◌, fun_ext, subst, sym}
use mathlib.Core.Logic.{◌≢◌, inl, inr}
use native.Mathlib.Omega.{arith}
use agatha.Prelude.Tests.{Bool-cases, ==_iff, ◌==◌, if◌then◌else◌}

abbrev pub update {ℓ} : {A : Type ℓ} → (ℕ → A) → ℕ → A → ℕ → A
update f p v q = if q == p then v else f q

pub update-same {ℓ} : {A : Type ℓ} (f : ℕ → A) (p : ℕ) (v : A) → update f p v p ≡ v
update-same f p v = ground arith

pub update-other {ℓ} : {A : Type ℓ} (f : ℕ → A) (p q : ℕ) (v : A) → q ≢ p → update f p v q ≡ f q
update-other f p q v h = ground arith

pub update_comm {ℓ} :
    {A : Type ℓ} (f : ℕ → A) (p q : ℕ) (v w : A)
    → p ≢ q
    → update (update f p v) q w ≡ update (update f q w) p v
update_comm f p q v w h = fun_ext λ r. ground arith

-- What holds of the new value at `p` and of every old value elsewhere holds of the update.
pub update_elim {ℓ κ} :
    {A : Type ℓ} (P : ℕ → A → Type κ) (f : ℕ → A) (p : ℕ) (v : A) (q : ℕ)
    → P p v
    → (q ≢ p → P q (f q))
    → P q (update f p v q)
update_elim P f p v q h k = elim (Bool-cases (q == p)) [
  | inl e ↦ rw e (subst (λ z. P z v) (sym ((==_iff q p).0 e)) h)
  | inr e ↦ rw e (k (ground arith))
]
