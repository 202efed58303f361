-- ===== src/Network/Results.antt =====
-- What `run_on_local_network` of ucp/utils.py returns.
use ucx_py.Prelude.{ℕ, zero, suc, ◌+◌, Bool, List, [], ◌∷◌, if◌then◌else◌}
use ucx_py.Exceptions.{Exn, Result, ok, err, ◌>>=◌}

-- The ports of the workers from rank r on, n of them.
unfoldable pub port_list : (ℕ → ℕ) → ℕ → ℕ → List ℕ
port_list port r zero = []
port_list port r (suc n) = port r ∷ port_list port (r + 1) n

module _ {A : Type 0} where
  -- The results of n workers from rank r on, by their rank; `exits` says whether the process of a
  -- worker ends with code 0.
  unfoldable pub collect : (ℕ → A) → (ℕ → Bool) → ℕ → ℕ → Result (List A)
  collect result exits r zero = ok []
  collect result exits r (suc n) =
      let rest = collect result exits (r + 1) n in
      if exits r then (rest >>= λ results. ok (result r ∷ results)) else err Exn.assertion_error

  -- A worker's result depends on its rank and the list of ports, which all workers get.
  unfoldable pub run_on_local_network :
      ℕ → (ℕ → ℕ) → (ℕ → List ℕ → A) → (ℕ → Bool) → Result (List A)
  unfolding port_list collect
  run_on_local_network n port worker exits =
      let ports = port_list port 0 n in collect (λ r. worker r ports) exits 0 n
