-- ===== src/Network.antt =====
-- `run_on_local_network` of ucp/utils.py: how its workers connect to each other (`_worker_process`).
pub mod Meeting
pub mod Full
pub mod Results
mod Tests
use ucx_py.Prelude.{
  ℕ, zero, suc, ◌+◌, ◌-◌, ◌≡◌, Bool, true, false, not, ◌&&◌, List, [], ◌∷◌, ◌==◌, ltb,
  if◌then◌else◌,
}
use ucx_py.Exceptions.{Exn, Result, ok, err}

-- All workers, by rank: where the loop over the higher ranks stands, and whether it waits for
-- `create_endpoint`; `has r k` says that k is a key of `eps` of worker r; and how many messages with
-- rank r are under way to the handler of worker k.
pub record Mesh : Type 0 where
  pub next : ℕ → ℕ
  pub dialing : ℕ → Bool
  pub has : ℕ → ℕ → Bool
  pub under_way : ℕ → ℕ → ℕ

-- Every worker starts its loop at `rank + 1` with no endpoint.
unfoldable pub start : Mesh
start = record { next = λ r. r + 1; dialing = λ r. false; has = λ r k. false; under_way = λ r k. 0 }

abbrev pub set : {A : Type 0} → (ℕ → A) → ℕ → A → ℕ → A
set f r v x = if x == r then v else f x

abbrev pub set₂ : {A : Type 0} → (ℕ → ℕ → A) → ℕ → ℕ → A → ℕ → ℕ → A
set₂ f r k v x y = if x == r then (if y == k then v else f x y) else f x y

-- `dial r`: worker r asserts that it has no endpoint for the next rank, and calls it. `connected r`:
-- the endpoint is there, and goes into `eps`; the rank is sent, and the loop goes on. `accepted k r`:
-- the handler of worker k has received rank r.
pub data Event : Type 0 where
  dial connected : ℕ → Event
  accepted : ℕ → ℕ → Event

unfoldable pub step : Event → Mesh → Result Mesh
step (dial r) m =
    if m.has r (m.next r)
    then err Exn.assertion_error
    else ok (record m { dialing = set m.dialing r true })
step (connected r) m = ok (record {
  next = set m.next r (m.next r + 1);
  dialing = set m.dialing r false;
  has = set₂ m.has r (m.next r) true;
  under_way = set₂ m.under_way r (m.next r) (m.under_way r (m.next r) + 1);
})
step (accepted k r) m =
    if m.has k r
    then err Exn.assertion_error
    else ok (record m {
      has = set₂ m.has k r true;
      under_way = set₂ m.under_way r k (m.under_way r k - 1);
    })

-- What can happen among n workers.
unfoldable pub can : ℕ → Event → Mesh → Bool
can n (dial r) m = ltb r n && (ltb (m.next r) n && not (m.dialing r))
can n (connected r) m = ltb r n && m.dialing r
can n (accepted k r) m = ltb 0 (m.under_way r k)

-- `len(eps)`: the keys are ranks below n.
unfoldable pub len : ℕ → (ℕ → Bool) → ℕ
len zero keys = 0
len (suc n) keys = len n keys + (if keys n then 1 else 0)

-- The loop of a worker after it has called all higher ranks: does it go on sleeping?
unfoldable pub sleeps : ℕ → ℕ → Mesh → Bool
unfolding len
sleeps n r m = not (len n (m.has r) == n - 1)

-- The states that n workers come to.
pub data Reach (n : ℕ) : Mesh → Type 0 where
  here : Reach n start
  then_ : {m l : Mesh} → Reach n m → (ev : Event) → can n ev m ≡ true → step ev m ≡ ok l → Reach n l
