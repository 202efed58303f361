-- ===== src/Libs/UcxEndpoint.antt =====
-- ucp/_libs/ucx_endpoint.pyx: UCXEndpoint, its close callback, its error callback and its finalizer,
-- and `close` and `initialized` of UCXObject (ucx_object.pyx) as an endpoint has them.
use ucx_py.Prelude.{ℕ, Bool, true, false, not, ◌&&◌, Option, none, some, List, ◌∷◌, if◌then◌else◌}
use ucx_py.Exceptions.{Exn, Result, ok, err}
use ucx_py.Action.{Action}
use ucx_py.Libs.Ucs.{UcsStatus, is_ucs_ok}

-- UCXEndpointCloseCallback. `called` is the history of the user's functions that were called.
pub record CloseCallback : Type 0 where
  pub cb_func : Option ℕ
  pub called : List ℕ

-- The callback is deregistered before it is called.
unfoldable pub run_callback : CloseCallback → CloseCallback
run_callback c = elim c.cb_func [
  | none ↦ c
  | some f ↦ record c { cb_func = none; called = f ∷ c.called }
]

unfoldable pub set_callback : ℕ → CloseCallback → CloseCallback
set_callback f c = record c { cb_func = some f }

pub data CloseMode : Type 0 where
  flush force : CloseMode

-- `ucp_ep_close_nb` is UCX's: how the close of this handle ends in each mode. A request that stays
-- in progress is waited for, and its final status is not read.
pub record UcxEndpoint : Type 0 where
  pub handle_as_int : ℕ
  pub alive : Bool
  pub endpoint_error_handling : Bool
  pub status : UcsStatus
  pub close_callback : CloseCallback
  pub ucp_ep_close_nb : CloseMode → UcsStatus

-- `initialized`: the finalizer is still alive.
abbrev pub initialized : UcxEndpoint → Bool
initialized b = b.alive

-- The `handle` property asserts that the handle is initialized.
unfoldable pub handle : Action UcxEndpoint ℕ
handle b = if initialized b then (ok b.handle_as_int, b) else (err Exn.assertion_error, b)

unfoldable pub is_alive : UcxEndpoint → Bool
is_alive b = if b.endpoint_error_handling then is_ucs_ok b.status else true

status_error : UcsStatus → Result (Unit {0})
status_error UcsStatus.ucs_ok = ok tt
status_error UcsStatus.err_connection_reset = err Exn.ucx_connection_reset
status_error _ = err Exn.ucx_error

unfoldable pub raise_on_error : Action UcxEndpoint (Unit {0})
unfolding status_error
raise_on_error b = if b.endpoint_error_handling then (status_error b.status, b) else (ok tt, b)

-- A forced close where error handling is on and the endpoint has an error.
unfoldable pub close_mode : UcxEndpoint → CloseMode
close_mode b =
    if b.endpoint_error_handling && not (is_ucs_ok b.status)
    then CloseMode.force
    else CloseMode.flush

after_close : UcsStatus → UcxEndpoint → Result (Unit {0}) × UcxEndpoint
after_close UcsStatus.ucs_ok b =
    (ok tt, record b { close_callback = run_callback b.close_callback })
after_close UcsStatus.ucs_inprogress b =
    (ok tt, record b { close_callback = run_callback b.close_callback })
after_close _ b = (err Exn.ucx_error, b)

-- `_ucx_endpoint_finalizer` on whether the worker is initialized, less the cancelling of what is in
-- flight, which is in Libs/Inflight. It frees the memory of the status, which is taken to keep its
-- value if it is read again.
unfoldable pub finalizer : Bool → Action UcxEndpoint (Unit {0})
unfolding after_close
finalizer worker_initialized b =
    if worker_initialized
    then after_close (b.ucp_ep_close_nb (close_mode b)) b
    else (err Exn.assertion_error, b)

-- `UCXObject.close`: a finalizer runs once, and is dead before its function is called.
unfoldable pub close : Action UcxEndpoint (Unit {0})
unfolding finalizer
close b = if initialized b then finalizer true (record b { alive = false }) else (ok tt, b)

-- The same when the worker that is being closed calls it as that of a child: the worker's own
-- finalizer is dead by then.
unfoldable pub close_by_worker : Action UcxEndpoint (Unit {0})
unfolding finalizer
close_by_worker b =
    if initialized b then finalizer false (record b { alive = false }) else (ok tt, b)

-- `_err_cb`, which UCX calls with the status of a failed endpoint.
unfoldable pub err_cb : UcsStatus → UcxEndpoint → UcxEndpoint
err_cb s b = record b { status = s; close_callback = run_callback b.close_callback }

unfoldable pub set_close_callback : ℕ → Action UcxEndpoint (Unit {0})
set_close_callback f b = (ok tt, record b { close_callback = set_callback f b.close_callback })
