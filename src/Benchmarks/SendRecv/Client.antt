-- ===== src/Benchmarks/SendRecv/Client.antt =====
-- How the counting client ends.
use ucx_py.Prelude.{
  ℕ, suc, ◌*◌, ◌+◌, ◌<◌, ◌≤◌, ◌≡◌, refl, Option, List, [], ◌∷◌, length, ◌==◌, All, arith, ◌⊎◌, inl,
  inr, Bool-cases,
}
use ucx_py.Prelude.Int.{ltz-sub_nat, pos, ltz}
use ucx_py.Exceptions.{Exn}
use ucx_py.Libs.Ucxio.{returned, blocked}
use ucx_py.Benchmarks.SendRecv.{
  Counters, Op, State, new, maybe_progress, wait_finished, run_ops, client, flatten,
  non_blocking_handler,
}
use ucx_py.Benchmarks.SendRecv.Balance.{
  Inv, Inv-start, Inv-handler, posted, posted-Inv, Good, Good-taken, Inv-cast, by_course, earlies,
  is_early,
}

maybe_progress_lem :
    (max n e : ℕ) (xs : List (Option Exn)) (c : Counters)
    → 0 < max
    → Inv n e c xs
    → (s : State) × (maybe_progress max xs c ≡ returned s)
      × Inv n e s.counters s.pending
      × (length s.pending < max + e)
unfolding maybe_progress
maybe_progress_lem max n e [] c h i = (
  record { counters = c; pending = [] },
  rw (i.balance, ltz-sub_nat) (ground arith),
  i,
  omega arith,
)
maybe_progress_lem max n e (x ∷ xs) c h i = elim (Bool-cases (ltz c.outstanding (pos max))) [
  | inl below ↦ (
    record { counters = c; pending = x ∷ xs },
    rw below refl,
    i,
    ground (arith, below, i.balance, ltz-sub_nat (length (x ∷ xs)) e max),
  )
  | inr above ↦
      (let (s, eq, i', below) =
          maybe_progress_lem max n e xs (non_blocking_handler x c) h (Inv-handler n e x xs c i) in
        (s, rw above eq, i', below))
]

wait_finished_lem :
    (n e : ℕ) (xs : List (Option Exn)) (c : Counters)
    → Inv n e c xs
    → ((s : State) × (wait_finished n xs c ≡ returned s)
        × Inv n e s.counters s.pending
        × (s.counters.finished ≡ n))
      ⊎ ((wait_finished n xs c ≡ blocked) × (0 < e))
unfolding wait_finished
wait_finished_lem n e [] c i = elim (Bool-cases (c.finished == n)) [
  | inl done ↦ inl (record { counters = c; pending = [] }, rw done refl, i, ground arith)
  | inr more ↦ inr (rw more refl, ground (arith, i.total))
]
wait_finished_lem n e (x ∷ xs) c i = elim (Bool-cases (c.finished == n)) [
  | inl done ↦ inl (record { counters = c; pending = x ∷ xs }, rw done refl, i, ground arith)
  | inr more ↦
      rw more (wait_finished_lem n e xs (non_blocking_handler x c) (Inv-handler n e x xs c i))
]

-- Operations behind `maybe_progress` that UCX takes and ends well all go out, and of the n
-- operations then posted or posted before at most as many are under way as the limit or, where e
-- were completed before their function returned, as the limit and e.
pub run_ops-window :
    (max n e : ℕ) (os : List Op) (s : State)
    → 0 < max
    → All Good os
    → Inv n e s.counters s.pending
    → length s.pending ≤ max + e
    → (s' : State) × (run_ops max os s ≡ returned s')
      × Inv (n + length os) (e + earlies os) s'.counters s'.pending
      × (length s'.pending ≤ max + (e + earlies os))
unfolding run_ops earlies
run_ops-window max n e [] s h g i w =
    (s, refl, Inv-cast (omega arith) (omega arith) i, omega (arith, w))
run_ops-window max n e (o ∷ os) s h (g, gs) i w =
    let (s1, e1, i1, w1) = maybe_progress_lem max n e s.pending s.counters h i in
    let (i2, w2) = posted-Inv n e o.course s1 (Good-taken o g) i1 in
    let (s3, e3, i3, w3) =
      run_ops-window max (suc n) (is_early o.course + e) os (posted o.course s1) h gs i2
        (omega (arith, w1, w2)) in
    (
      s3,
      rw (e1, by_course o o.course s1 refl g) e3,
      Inv-cast (omega arith) (omega arith) i3,
      omega (arith, w3),
    )

length-flatten : (its : List (Op × Op)) → length (flatten its) ≡ 2 * length its
unfolding flatten
length-flatten [] = refl
length-flatten (p ∷ its) = omega (arith, length-flatten its)

-- Let the limit of operations under way be positive, and let UCX take every operation and end it
-- well, before the counter of requests comes round. The client under `--delay-progress` then ends
-- when two operations of each iteration are counted as finished and none as outstanding, with as
-- many still pending as were completed before their function returned, which are counted twice; or,
-- if there are such ones, it does not end.
pub client-ends :
    (max : ℕ) (its : List (Op × Op))
    → 0 < max
    → All Good (flatten its)
    → let e = earlies (flatten its) in
      ((s : State) × (client max its ≡ returned s)
        × (s.counters.finished ≡ 2 * length its)
        × (s.counters.outstanding ≡ pos 0)
        × (length s.pending ≡ e))
      ⊎ ((client max its ≡ blocked) × (0 < e))
unfolding client
client-ends max its h g =
    let (s, e, i, w) =
      run_ops-window max 0 0 (flatten its) (record { counters = new; pending = [] }) h g Inv-start
        (omega arith) in
    elim (wait_finished_lem (2 * length its) (earlies (flatten its)) s.pending s.counters
      (Inv-cast (omega (arith, length-flatten its)) (omega arith) i)) [
        | inl (s', e', i', done) ↦ inl (
          s',
          rw e e',
          done,
          ground (arith, i'.balance, i'.total, done),
          omega (arith, i'.total, done),
        )
        | inr (e', some_) ↦ inr (rw e e', some_)
      ]
