-- ===== src/Libs/EndpointMaking.antt =====
-- The making of endpoints, UCXEndpoint.__init__, `create`, `create_from_worker_address` and
-- `create_from_conn_request` of ucp/_libs/ucx_endpoint.pyx, with the memory that they allocate and free.
use ucx_py.Prelude.{ℕ, ◌+◌, ◌-◌, ◌≡◌, Bool, not, ◌&&◌, if◌then◌else◌, arith, suc}
use ucx_py.Exceptions.{Exn, Result, ok, err, is_ok}
use ucx_py.Action.{Action, pure, lift, raise_if, modify, ◌>>=◌, ◌>>◌}
use ucx_py.Libs.Ucs.{UcsStatus, assert_ucs_status}

-- The blocks that are allocated and not freed: `params`, its `sockaddr`, and the status of the endpoint.
pub record Held : Type 0 where
  pub params : ℕ
  pub sockaddr : ℕ
  pub status : ℕ

-- `UCP_ERR_HANDLING_MODE_NONE` and `UCP_ERR_HANDLING_MODE_PEER`
pub data ErrMode : Type 0 where
  without peer : ErrMode

-- An endpoint that was made: its mode, and whether its finalizer is given a status to free.
pub record Made : Type 0 where
  pub err_mode : ErrMode
  pub has_status : Bool

-- What the surroundings answer: is the worker initialized, how do `gethostbyname`, the filling in of the
-- socket address and `ucp_ep_create` end?
pub record Answers : Type 0 where
  pub initialized : Bool
  pub gethostbyname : Result (Unit {0})
  pub set_sockaddr : Bool
  pub ucp_ep_create : UcsStatus

-- `try` with `finally`, whose body does not raise.
abbrev pub try_finally : {A : Type 0} → Action Held A → (Held → Held) → Action Held A
try_finally body cleanup h = let (r, h') = body h in (r, cleanup h')

-- `_get_error_callback`
unfoldable pub get_error_callback : Bool → Action Held ErrMode
get_error_callback endpoint_error_handling h =
    if endpoint_error_handling
    then (ok peer, record h { status = h.status + 1 })
    else (ok without, h)

-- `__init__`
unfoldable pub init : Answers → Bool → Action Held Made
init w endpoint_error_handling = do
  raise_if (not w.initialized) Exn.assertion_error
  mode ← get_error_callback endpoint_error_handling
  created ← lift (assert_ucs_status w.ucp_ep_create)
  pure (record { err_mode = mode; has_status = endpoint_error_handling })

malloc_params : Action Held (Unit {0})
malloc_params = modify (λ (h : Held). record h { params = h.params + 1 })

free_params : Held → Held
free_params h = record h { params = h.params - 1 }

set_sockaddr : Answers → Action Held (Unit {0})
set_sockaddr w h =
    if w.set_sockaddr
    then (ok tt, record h { sockaddr = h.sockaddr + 1 })
    else (err Exn.memory_error, h)

-- `create`
unfoldable pub create : Answers → Bool → Action Held Made
unfolding malloc_params set_sockaddr free_params
create w endpoint_error_handling = do
  raise_if (not w.initialized) Exn.assertion_error
  malloc_params
  lift w.gethostbyname
  set_sockaddr w
  try_finally (init w endpoint_error_handling)
      (λ h. free_params (record h { sockaddr = h.sockaddr - 1 }))

-- `create_from_worker_address`, and `create_from_conn_request`, which differ in what they fill in.
unfoldable pub create_from : Answers → Bool → Action Held Made
unfolding malloc_params free_params
create_from w endpoint_error_handling = do
  raise_if (not w.initialized) Exn.assertion_error
  malloc_params
  try_finally (init w endpoint_error_handling) free_params

-- Does `create` come to the making of the endpoint?
abbrev pub comes_to_init : Answers → Bool
comes_to_init w = w.initialized && is_ok w.gethostbyname && w.set_sockaddr

-- `create` of an endpoint succeeds exactly when the worker is initialized, the host name is found,
-- the socket address is filled in and UCX makes the endpoint; it frees the socket address in every
-- case, and the parameters unless the host name is not found or the socket address is not filled
-- in; where it comes to the making of the endpoint with error handling, one status stays allocated,
-- also if UCX then makes none.
pub create-held :
    (w : Answers) (endpoint_error_handling : Bool) (h : Held)
    → let (r, h') = create w endpoint_error_handling h in
      (is_ok r ≡ (comes_to_init w && is_ok (assert_ucs_status w.ucp_ep_create)))
      × (h'.sockaddr ≡ h.sockaddr)
      × (h'.params ≡ (if w.initialized && not (comes_to_init w) then suc h.params else h.params))
      × (h'.status
          ≡ (if comes_to_init w && endpoint_error_handling then suc h.status else h.status))
unfolding create init get_error_callback malloc_params set_sockaddr free_params
create-held w endpoint_error_handling h = ground arith

-- The other two free the parameters in every case.
pub create_from-held :
    (w : Answers) (endpoint_error_handling : Bool) (h : Held)
    → let (r, h') = create_from w endpoint_error_handling h in
      (is_ok r ≡ (w.initialized && is_ok (assert_ucs_status w.ucp_ep_create)))
      × (h'.sockaddr ≡ h.sockaddr)
      × (h'.params ≡ h.params)
      × (h'.status ≡ (if w.initialized && endpoint_error_handling then suc h.status else h.status))
unfolding create_from init get_error_callback malloc_params free_params
create_from-held w endpoint_error_handling h = ground arith
