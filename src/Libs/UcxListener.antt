-- ===== src/Libs/UcxListener.antt =====
-- UCXListener of ucp/_libs/ucx_listener.pyx: how it is made, with the socket address and the handle that
-- UCX is given, and its callback.
use ucx_py.Prelude.{ℕ, ◌+◌, ◌-◌, ◌≡◌, ◌≢◌, refl, Bool, true, false, if◌then◌else◌, arith, suc}
use ucx_py.Exceptions.{Exn, Result, ok, err, is_ok, log_errors}
use ucx_py.Action.{Action, lift, modify, ◌>>=◌, ◌>>◌}
use ucx_py.Libs.Ucs.{UcsStatus, assert_ucs_status, is_ucs_ok}

-- Socket addresses that are allocated, handles of listeners that are open, and finalizers that will
-- destroy one.
pub record Open : Type 0 where
  pub sockaddrs : ℕ
  pub handles : ℕ
  pub finalizers : ℕ

-- `_listener_callback`: what the user's function raises is logged.
unfoldable pub listener_callback : Result (Unit {0}) → Result (Unit {0})
listener_callback called = log_errors false called

take_sockaddr : Bool → Action Open (Unit {0})
take_sockaddr set_sockaddr o =
    if set_sockaddr
    then (ok tt, record o { sockaddrs = o.sockaddrs + 1 })
    else (err Exn.memory_error, o)

-- `ucp_listener_create`, which opens a handle where it succeeds.
open_handle : UcsStatus → Action Open (Unit {0})
open_handle status = modify (λ (o : Open).
    if is_ok (assert_ucs_status status) then record o { handles = o.handles + 1 } else o)

-- `ucp_listener_query`, and the destroying of the handle where it fails.
query_handle : UcsStatus → Action Open (Unit {0})
query_handle status =
    modify (λ (o : Open). if is_ucs_ok status then o else record o { handles = o.handles - 1 })

-- `__init__`, with the filling in of the socket address and the statuses of `ucp_listener_create` and
-- `ucp_listener_query`.
unfoldable pub listener_init : Bool → UcsStatus → UcsStatus → Action Open (Unit {0})
unfolding take_sockaddr open_handle query_handle
listener_init set_sockaddr created queried = do
  take_sockaddr set_sockaddr
  open_handle created
  modify (λ (o : Open). record o { sockaddrs = o.sockaddrs - 1 })
  listening ← lift (assert_ucs_status created)
  query_handle queried
  known ← lift (assert_ucs_status queried)
  modify (λ (o : Open). record o { finalizers = o.finalizers + 1 })

-- Unless UCX leaves the query in progress, the making of a listener leaves no socket address, and a
-- handle and its finalizer exactly when it succeeds.
pub listener_init-open :
    (set_sockaddr : Bool) (created queried : UcsStatus) (o : Open)
    → queried ≢ UcsStatus.ucs_inprogress
    → let (r, o') = listener_init set_sockaddr created queried o in
      (o'.sockaddrs ≡ o.sockaddrs)
      × (o'.handles ≡ (if is_ok r then suc o.handles else o.handles))
      × (o'.finalizers ≡ (if is_ok r then suc o.finalizers else o.finalizers))
unfolding listener_init take_sockaddr open_handle query_handle assert_ucs_status
listener_init-open false created queried o h = (refl, refl, refl)
listener_init-open true created queried o h = ground arith
