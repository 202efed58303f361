-- ===== src/Progress/Tests.antt =====
-- Rounds of the blocking mode, and the theorems about them at concrete inputs.
use ucx_py.Prelude.{◌≡◌, true, false, List, [], ◌∷◌}
use ucx_py.Progress.Life.{Event, fd_ready, let_go, task_ends}
use ucx_py.Progress.{Round, arm_worker}
use ucx_py.Progress.Order.{unready, in_order, arm_worker-in_order}

-- A round that does not arm, and one that does.
abbrev busy : Round
busy = record { alive = true; cancelled = 2; still_alive = true; arms = false }

abbrev idle : Round
idle = record { alive = true; cancelled = 0; still_alive = true; arms = true }

arm_worker-in_order_example : in_order unready (arm_worker (busy ∷ idle ∷ [])).0 ≡ true
arm_worker-in_order_example = arm_worker-in_order (busy ∷ idle ∷ [])

-- Both tasks are let go after the descriptor was ready, and the coroutine ends.
abbrev events : List Event
events = fd_ready true ∷ let_go ∷ task_ends ∷ []
