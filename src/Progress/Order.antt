-- ===== src/Progress/Order.antt =====
-- When the blocking mode arms its worker.
use ucx_py.Prelude.{
  ◌≢◌, ◌&&◌, if◌then◌else◌, All, ◌≡◌, refl, true, false, List, [], ◌∷◌, ◌++◌, arith, All, Bool,
}
use ucx_py.Progress.{
  Act, progress, wait, arm, sleep, Round, worker_gone, armed, arm_worker, End, running,
}

-- What has been done last: nothing, or a `progress()`, or the wait for all other tasks after one.
pub data Ready : Type 0 where
  unready progressed waited : Ready

-- The demands on arming: a wait comes after a `progress()`, and `arm()` directly after a wait.
pub in_order : Ready → List Act → Bool
in_order s [] = true
in_order s (progress ∷ acts) = in_order progressed acts
in_order progressed (wait ∷ acts) = in_order waited acts
in_order waited (arm ∷ acts) = in_order unready acts
in_order s (wait ∷ acts) = false
in_order s (arm ∷ acts) = false
in_order s (sleep ∷ acts) = false

-- The task of the blocking mode makes no call out of order, however its rounds go: the worker is
-- progressed before each wait, and armed only directly after a wait that followed it.
pub arm_worker-in_order : (rounds : List Round) → in_order unready (arm_worker rounds).0 ≡ true
unfolding arm_worker in_order
arm_worker-in_order [] = refl
arm_worker-in_order (r ∷ rounds) = ground (arith, arm_worker-in_order rounds)

-- Where a round leaves the task: without a live worker it ends, before or after the wait; with one
-- it ends if the worker arms.
unfoldable pub round_end : Round → End
round_end r = if r.alive && r.still_alive then (if r.arms then armed else running) else worker_gone

-- The task of the blocking mode ends with the first round after which it does not go on, and as
-- that round says, whatever rounds would come later.
pub arm_worker_until :
    (rounds later : List Round) (r : Round)
    → All (λ q. round_end q ≡ running) rounds
    → round_end r ≢ running
    → ((arm_worker (rounds ++ r ∷ later)).1 ≡ round_end r)
      × ((arm_worker (rounds ++ r ∷ later)).0 ≡ (arm_worker (rounds ++ r ∷ [])).0)
unfolding arm_worker round_end
arm_worker_until [] later r h ends = ground arith
arm_worker_until (q ∷ rounds) later r h ends =
    ground (arith, arm_worker_until rounds later r h.1 ends)
