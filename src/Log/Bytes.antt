-- ===== src/Log/Bytes.antt =====
-- The bytes that a ring holds, in their order.
use agatha.Prelude.{
  ℕ, zero, suc, ◌+◌, ◌-◌, ◌%◌, ◌<◌, ◌≤◌, ◌≡◌, ◌≢◌, refl, sym, ap, ◌∙◌, arith, ◌⊎◌, inl, inr, List,
  [], ◌∷◌, ◌++◌, length, update, update-same, update-other,
}
use agatha.Log.{log_size, Ring, copy_in, copy_out}

-- `n` bytes from `a` on, around the end of the buffer.
abbrev pub ring_read : (ℕ → ℕ) → (a n : ℕ) → List ℕ
ring_read f a zero = []
ring_read f a (suc n) = f a ∷ ring_read f ((a + 1) % log_size) n

abbrev pub count : Ring → ℕ
count r = (r.end + log_size - r.start) % log_size

-- What is still to be sent.
abbrev pub contents : Ring → List ℕ
contents r = ring_read r.buf r.start (count r)

-- Both ends are inside of the buffer.
pub record InBuf (r : Ring) : Type 0 where
  pub start_lt : r.start < log_size
  pub end_lt : r.end < log_size

around : (a i : ℕ) → ((a + 1) % log_size + i) % log_size ≡ (a + suc i) % log_size
around a i = omega arith

pub ring_read-add :
    (f : ℕ → ℕ) (a m n : ℕ)
    → a < log_size
    → ring_read f a (m + n) ≡ ring_read f a m ++ ring_read f ((a + m) % log_size) n
ring_read-add f a zero n h =
    let e : 0 + n ≡ n = omega arith in
    let at : (a + 0) % log_size ≡ a = omega arith in
    ap (ring_read f a) e ∙ ap (λ x. ring_read f x n) (sym at)
ring_read-add f a (suc m) n h =
    let e : suc m + n ≡ suc (m + n) = omega arith in
    ap (ring_read f a) e
    ∙ ap (λ l. f a ∷ l) (ring_read-add f ((a + 1) % log_size) m n (omega arith))
    ∙ ap (λ x. f a ∷ (ring_read f ((a + 1) % log_size) m ++ ring_read f x n)) (around a m)

-- Away from the end of the buffer.
ring_read-next :
    (f : ℕ → ℕ) (a n : ℕ)
    → a + suc n ≤ log_size
    → ring_read f (a + 1) n ≡ ring_read f ((a + 1) % log_size) n
ring_read-next f a zero h = refl
ring_read-next f a (suc n) h = ap (λ x. ring_read f x (suc n)) (omega arith)

pub copy_out-ring_read : (f : ℕ → ℕ) (a n : ℕ) → a + n ≤ log_size → copy_out f a n ≡ ring_read f a n
unfolding copy_out
copy_out-ring_read f a zero h = refl
copy_out-ring_read f a (suc n) h =
    ap (λ l. f a ∷ l) (copy_out-ring_read f (a + 1) n (omega arith) ∙ ring_read-next f a n h)

pub length-copy_out : (f : ℕ → ℕ) (a n : ℕ) → length (copy_out f a n) ≡ n
unfolding copy_out
length-copy_out f a zero = refl
length-copy_out f a (suc n) = ap suc (length-copy_out f (a + 1) n)

-- Bytes outside of those copied in do not change.
pub copy_in-other :
    (f : ℕ → ℕ) (a : ℕ) (xs : List ℕ) (x : ℕ)
    → (x < a) ⊎ (a + length xs ≤ x)
    → copy_in f a xs x ≡ f x
unfolding copy_in
copy_in-other f a [] x h = refl
copy_in-other f a (y ∷ xs) x h =
    copy_in-other (update f a y) (a + 1) xs x (later h) ∙ update-other f a x y (other h)
  where
    later : (x < a) ⊎ (a + suc (length xs) ≤ x) → (x < a + 1) ⊎ (a + 1 + length xs ≤ x)
    later (inl e) = inl (omega arith)
    later (inr e) = inr (omega arith)

    other : (x < a) ⊎ (a + suc (length xs) ≤ x) → x ≢ a
    other (inl e) q = omega arith
    other (inr e) q = omega arith

-- What is copied in is read back.
pub copy_in-ring_read :
    (f : ℕ → ℕ) (a : ℕ) (xs : List ℕ)
    → a + length xs ≤ log_size
    → ring_read (copy_in f a xs) a (length xs) ≡ xs
unfolding copy_in
copy_in-ring_read f a [] h = refl
copy_in-ring_read f a (x ∷ xs) h =
    let g = copy_in (update f a x) (a + 1) xs in
    ap (λ y. y ∷ ring_read g ((a + 1) % log_size) (length xs))
      (copy_in-other (update f a x) (a + 1) xs a (inl (omega arith)) ∙ update-same f a x)
    ∙ ap (λ l. x ∷ l)
        (sym (ring_read-next g a (length xs) h)
          ∙ copy_in-ring_read (update f a x) (a + 1) xs (omega arith))

pub ring_read-same :
    (f g : ℕ → ℕ) (a n : ℕ)
    → a < log_size
    → ((i : ℕ) → i < n → f ((a + i) % log_size) ≡ g ((a + i) % log_size))
    → ring_read f a n ≡ ring_read g a n
ring_read-same f g a zero lt h = refl
ring_read-same f g a (suc n) lt h =
    let at : (a + 0) % log_size ≡ a = omega arith in
    ap (λ y. y ∷ ring_read f ((a + 1) % log_size) n) (ap f (sym at) ∙ h 0 (omega arith) ∙ ap g at)
    ∙ ap (λ l. g a ∷ l)
        (ring_read-same f g ((a + 1) % log_size) n (omega arith)
          (λ i i_lt. ap f (around a i) ∙ h (suc i) (omega arith) ∙ ap g (sym (around a i))))
