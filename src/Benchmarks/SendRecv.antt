-- ===== src/Benchmarks/SendRecv.antt =====
-- benchmarks/send-recv-core.py: how its client and its server count operations, with `non_blocking_send`
-- and `non_blocking_recv` of ucp/_libs/utils_test.py. What UCX does with an operation is its course.
pub mod Balance
pub mod Client
pub mod Server
mod Tests
use ucx_py.Prelude.{
  ℕ, suc, ◌*◌, ◌+◌, Bool, true, false, not, ◌&&◌, ◌||◌, Option, none, some, List, [], ◌∷◌, ◌++◌,
  length, ◌==◌, ltb, leb, if◌then◌else◌,
}
use ucx_py.Prelude.Int.{ℤ, pos, inc, dec, ltz}
use ucx_py.Exceptions.{Exn, Result, ok, err}
use ucx_py.Libs.Transfer.{Kind, send}
use ucx_py.Libs.Transfer.Answers.{Course, Trace, transfer}
use ucx_py.Libs.Ucxio.{Outcome, returned, raised, blocked}

-- `outstanding[0]` and `finished[0]`.
pub record Counters : Type 0 where
  pub outstanding : ℤ
  pub finished : ℕ

abbrev pub new : Counters
new = record { outstanding = pos 0; finished = 0 }

unfoldable pub op_started : Counters → Counters
op_started c = record c { outstanding = inc c.outstanding }

unfoldable pub op_completed : Counters → Counters
op_completed c = record { outstanding = dec c.outstanding; finished = suc c.finished }

-- `non_blocking_handler` with `op_completed`: a failed assertion is logged by the callback that calls it.
unfoldable pub non_blocking_handler : Option Exn → Counters → Counters
unfolding op_completed
non_blocking_handler none c = op_completed c
non_blocking_handler (some exception) c = c

unfoldable pub handler_calls : List (Option Exn) → Counters → Counters
unfolding non_blocking_handler
handler_calls [] c = c
handler_calls (x ∷ xs) c = handler_calls xs (non_blocking_handler x c)

-- An operation, with the counter of requests as it is then.
pub record Op : Type 0 where
  pub kind : Kind
  pub nbytes : ℕ
  pub counter : ℕ
  pub course : Course

-- The counters, and the completions that UCX still owes, each of which one call of `progress` brings.
pub record State : Type 0 where
  pub counters : Counters
  pub pending : List (Option Exn)

-- Where the operation returns None it is completed.
by_return : Trace → State → Result State
unfolding op_completed
by_return t s = elim t.outcome [
  | err x ↦ err x
  | ok false ↦ ok (record s { counters = op_completed s.counters })
  | ok true ↦ ok (record s { pending = s.pending ++ t.later })
]

-- `non_blocking_send` and `non_blocking_recv`
unfoldable pub non_blocking : Op → State → Result State
unfolding by_return handler_calls op_started
non_blocking o s =
    let t = transfer o.kind o.nbytes o.counter o.course in
    by_return t (record s { counters = handler_calls t.before (op_started s.counters) })

-- `maybe_progress`: where nothing is pending, its loop does not end. A call of `progress` is taken to bring
-- one completion, here and at the end of `client`; `UCXWorker.progress` goes on while UCX reports progress,
-- and may bring several.
unfoldable pub maybe_progress : ℕ → List (Option Exn) → Counters → Outcome State
unfolding non_blocking_handler
maybe_progress max [] c =
    if ltz c.outstanding (pos max)
    then returned (record { counters = c; pending = [] })
    else blocked
maybe_progress max (x ∷ xs) c =
    let rest = maybe_progress max xs (non_blocking_handler x c) in
    if ltz c.outstanding (pos max)
    then returned (record { counters = c; pending = x ∷ xs })
    else rest

-- The loop at the end of `client`.
unfoldable pub wait_finished : ℕ → List (Option Exn) → Counters → Outcome State
unfolding non_blocking_handler
wait_finished target [] c =
    if c.finished == target then returned (record { counters = c; pending = [] }) else blocked
wait_finished target (x ∷ xs) c =
    let rest = wait_finished target xs (non_blocking_handler x c) in
    if c.finished == target then returned (record { counters = c; pending = x ∷ xs }) else rest

abbrev pub and_then_do : Outcome State → (State → Outcome State) → Outcome State
and_then_do (returned s) f = f s
and_then_do (raised x) f = raised x
and_then_do blocked f = blocked

abbrev pub from_result : Result State → Outcome State
from_result (ok s) = returned s
from_result (err x) = raised x

-- The operations of the client's loop, each behind `maybe_progress`.
unfoldable pub run_ops : ℕ → List Op → State → Outcome State
run_ops max [] s = returned s
run_ops max (o ∷ os) s =
    and_then_do (maybe_progress max s.pending s.counters)
      (λ s'. and_then_do (from_result (non_blocking o s')) (λ s''. run_ops max os s''))

unfoldable pub flatten : List (Op × Op) → List Op
flatten [] = []
flatten ((o, p) ∷ rest) = o ∷ p ∷ flatten rest

-- The client under `--delay-progress`: a send and a receive in each iteration.
unfoldable pub client : ℕ → List (Op × Op) → Outcome State
unfolding run_ops wait_finished
client max iterations =
    and_then_do (run_ops max (flatten iterations) (record { counters = new; pending = [] }))
      (λ s. wait_finished (2 * length iterations) s.pending s.counters)

-- What happens to the server: `_listener_handler` starts a receive, a receive ends and
-- `_tag_recv_handle` or `_am_recv_handle` sends the message back, a send ends later.
pub data Event : Type 0 where
  started : Event
  tag_received am_received : Option Exn → Op → Event
  sent : Option Exn → Event

-- The handlers' return, also where the sending raises, which the callback logs.
answered_tag : Trace → Counters → Counters
unfolding op_completed
answered_tag t c = elim t.outcome [ err x ↦ c | ok false ↦ op_completed c | ok true ↦ c ]

-- `_send_handle` counts as `non_blocking_handler` does; `_am_recv_handle` drops what `am_send_nbx` returns.
unfoldable pub server_step : Event → Counters → Counters
unfolding op_started answered_tag handler_calls non_blocking_handler
server_step started c = op_started c
server_step (tag_received (some exception) o) c = c
server_step (tag_received none o) c =
    let t = transfer send o.nbytes o.counter o.course in answered_tag t (handler_calls t.before c)
server_step (am_received (some exception) o) c = c
server_step (am_received none o) c =
    handler_calls (transfer send o.nbytes o.counter o.course).before c
server_step (sent exception) c = non_blocking_handler exception c

unfoldable pub server_run : List Event → Counters → Counters
unfolding server_step
server_run [] c = c
server_run (ev ∷ evs) c = server_run evs (server_step ev c)

-- Does the server's last loop go on, without and with `--delay-progress`?
unfoldable pub goes_on : ℕ → Counters → Bool
goes_on n_iter c = not (c.finished == n_iter + 1)

unfoldable pub goes_on_delayed : ℕ → ℕ → Counters → Bool
goes_on_delayed n_iter max c =
    ltb c.finished (n_iter + 1)
    && (not (ltz c.outstanding (pos max)) || leb (n_iter + 1) (c.finished + max))
