-- ===== src/Network/Full.antt =====
-- When a worker goes on to its function, and that every worker does.
use ucx_py.Prelude.{
  ℕ, zero, suc, ◌+◌, ◌≤◌, ◌<◌, ◌≡◌, ◌≢◌, inl, inr, refl, Bool, true, false, arith, Bool-cases,
}
use native.Mathlib.Decide.{dec_lt}
use ucx_py.Network.{Mesh, Event, dial, connected, accepted, can, Reach, len, sleeps}
use ucx_py.Network.Meeting.{Reach-Orderly}

len-le : (n : ℕ) (f : ℕ → Bool) → len n f ≤ n
unfolding len
len-le zero f = omega arith
len-le (suc n) f = ground (arith, len-le n f)

len_all : (n : ℕ) (f : ℕ → Bool) → ((k : ℕ) → k < n → f k ≡ true) → len n f ≡ n
unfolding len
len_all zero f all = refl
len_all (suc n) f all =
    ground (arith, len_all n f (λ k h. all k (omega arith)), all n (omega arith))

-- All keys but one.
len_full :
    (n r : ℕ) (f : ℕ → Bool)
    → r < n
    → f r ≡ false
    → ((k : ℕ) → k < n → k ≢ r → f k ≡ true)
    → len n f + 1 ≡ n
unfolding len
len_full zero r f bound own all = absurd (omega arith)
len_full (suc n) r f bound own all = elim (dec_lt r n) [
  | yes h ↦ ground (arith, len_full n r f h own (λ k b. all k (omega arith)), all n (omega arith))
  | no h ↦
      let last : r ≡ n = omega arith in
      ground (arith, len_all n f (λ k b. all k (omega arith) (λ e. omega arith)))
]

len_less : (n k : ℕ) (f : ℕ → Bool) → k < n → f k ≡ false → len n f < n
unfolding len
len_less zero k f bound missing = absurd (omega arith)
len_less (suc n) k f bound missing = elim (dec_lt k n) [
  | yes h ↦ ground (arith, len_less n k f h missing)
  | no h ↦ let last : k ≡ n = omega arith in ground (arith, len-le n f)
]

-- Two keys are missing.
len_missing :
    (n r k : ℕ) (f : ℕ → Bool) → r < n → k < n → k ≢ r → f r ≡ false → f k ≡ false → len n f + 1 < n
unfolding len
len_missing zero r k f r_bound k_bound other own missing = absurd (omega arith)
len_missing (suc n) r k f r_bound k_bound other own missing = elim (dec_lt r n) [
  | no h ↦ let last : r ≡ n = omega arith in ground (arith, len_less n k f (omega arith) missing)
  | yes h ↦ elim (dec_lt k n) [
    | no g ↦ let last : k ≡ n = omega arith in ground (arith, len_less n r f h own)
    | yes g ↦ ground (arith, len_missing n r k f h g other own missing)
  ]
]

-- In every state that n workers come to, a worker that no longer sleeps has an endpoint for every
-- other worker.
pub sleeps-has :
    (n r k : ℕ) {m : Mesh}
    → Reach n m
    → r < n
    → k < n
    → k ≢ r
    → sleeps n r m ≡ false
    → m.has r k ≡ true
unfolding sleeps
sleeps-has n r k {m} reached r_bound k_bound other awake = elim (Bool-cases (m.has r k)) [
  | inl there ↦ there
  | inr missing ↦ ground (
    arith,
    len_missing n r k (m.has r) r_bound k_bound other ((Reach-Orderly n reached).no_loop r) missing,
  )
]

module _ (n : ℕ) {m : Mesh} (reached : Reach n m) (done : (ev : Event) → can n ev m ≡ false) where
  next_done : (r : ℕ) → r < n → n ≤ m.next r
  unfolding can
  next_done r bound = ground (arith, done (dial r), done (connected r))

  called_done : (r k : ℕ) → r < k → k < n → (m.has r k ≡ true) × (m.has k r ≡ true)
  unfolding can
  called_done r k up bound =
      let v = Reach-Orderly n reached in
      ground
        (arith, v.calls r k up, v.called r k up, next_done r (omega arith), done (accepted k r))

  other_done : (r k : ℕ) → r < n → k < n → k ≢ r → m.has r k ≡ true
  other_done r k r_bound k_bound other = elim (dec_lt r k) [
    | yes h ↦ (called_done r k h k_bound).0
    | no h ↦ (called_done k r (omega arith) r_bound).1
  ]

  -- Among n workers, when nothing more can happen, every worker has an endpoint for every other
  -- one, and none sleeps.
  pub sleeps_done : (r k : ℕ) → r < n → k < n → k ≢ r → (m.has r k ≡ true) × (sleeps n r m ≡ false)
  unfolding sleeps
  sleeps_done r k r_bound k_bound other = (
    other_done r k r_bound k_bound other,
    ground (
      arith,
      len_full n r (m.has r) r_bound ((Reach-Orderly n reached).no_loop r)
          (λ j b o. other_done r j r_bound b o),
    ),
  )
