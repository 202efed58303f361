-- ===== src/Progress.antt =====
-- ucp/continuous_ucx_progress.py: the tasks that keep a worker progressing.
pub mod Order
pub mod Life
mod Tests
use ucx_py.Prelude.{
  ℕ, Bool, true, false, Option, none, some, List, [], ◌∷◌, ◌++◌, ltb, if◌then◌else◌, ◌==◌,
}
use ucx_py.Exceptions.{Exn, Result, ok, err}

-- What a task does to the worker and the event loop: `progress()`, the wait on the socket until all
-- other tasks are through, `arm()`, and the return to the loop by `sleep(0)`.
pub data Act : Type 0 where
  progress : Act
  wait : Act
  arm : Act
  sleep : Act

-- `__eq__` and `__hash__` of ProgressTask go by the event loop, here by its hash.
unfoldable pub same_task : ℕ → ℕ → Bool
same_task task other = task == other

-- `_progress_task` of NonBlockingMode; each entry says whether the worker is there and initialized
-- when the loop comes round. The task ends with the first `false`.
unfoldable pub progress_task : List Bool → List Act
progress_task [] = []
progress_task (true ∷ rounds) = progress ∷ sleep ∷ progress_task rounds
progress_task (false ∷ rounds) = []

-- One round of `_arm_worker`: is the worker there and initialized, how many inflight messages does
-- `cancel_inflight_messages` cancel, is the worker still there after the wait, and does it arm.
pub record Round : Type 0 where
  pub alive : Bool
  pub cancelled : ℕ
  pub still_alive : Bool
  pub arms : Bool

-- How the task stands after the rounds so far.
pub data End : Type 0 where
  running worker_gone armed : End

round_acts : Round → List Act × End
round_acts r =
    if r.alive
    then (let acts = progress ∷ (if ltb 0 r.cancelled then progress ∷ [] else []) in
        if r.still_alive
        then (acts ++ wait ∷ arm ∷ [], (if r.arms then armed else running))
        else (acts ++ wait ∷ [], worker_gone))
    else ([], worker_gone)

go_on : List Act × End → List Act × End → List Act × End
go_on (acts, running) (more, end) = (acts ++ more, end)
go_on s rest = s

-- `_arm_worker` of BlockingMode.
unfoldable pub arm_worker : List Round → List Act × End
unfolding round_acts go_on
arm_worker [] = ([], running)
arm_worker (r ∷ rounds) = go_on (round_acts r) (arm_worker rounds)

-- `_fd_reader_callback` of BlockingMode, on whether an arm task exists and is done: whether a new
-- arm task is made.
unfoldable pub fd_reader_callback : Bool → Option Bool → Result (List Act × Bool)
fd_reader_callback alive task = elim alive [
  | false ↦ ok ([], false)
  | true ↦ elim task [
    | none ↦ ok (progress ∷ [], true)
    | some task_done ↦ if task_done then ok (progress ∷ [], true) else err Exn.assertion_error
  ]
]
