-- ===== src/Core/Context.antt =====
-- The module's single ApplicationContext and the functions on it, of ucp/core.py.
pub mod Config
pub mod Lifecycle
pub mod Precedence
mod Tests
use ucx_py.Prelude.{
  ℕ, ◌+◌, Bool, true, false, not, ◌&&◌, ◌||◌, Option, none, some, List, [], ◌∷◌, ◌++◌, ◌==◌, ltb,
  leb, if◌then◌else◌,
}
use ucx_py.Exceptions.{Exn, Result, ok, err}
use ucx_py.Action.{Action, pure, raise, gets, lift, or_raise, ◌>>=◌, ◌>>◌, raise_if, modify}
use ucx_py.Hash.{Digest}
use ucx_py.Struct.{Bytes}
use ucx_py.Progress.{same_task}
use ucx_py.Libs.UcxEndpoint.{UcxEndpoint}
use ucx_py.Core.Endpoint.{Endpoint, init}
use ucx_py.Core.PeerInfo.{establish}
use ucx_py.Core.Endpoint.Ctrl.{setup_ctrl_recv}
use Config.{Options, Str, drop_options, eq_str}

-- A version (a, b, c), and `version >= other` on such tuples.
abbrev pub Version : Type 0
Version = ℕ × ℕ × ℕ

unfoldable pub version_ge : Version → Version → Bool
version_ge (a, b, c) (x, y, z) = ltb x a || ((a == x) && (ltb y b || ((b == y) && leb z c)))

-- `endpoint_error_handling` where the caller gives None.
unfoldable pub error_handling : Version → Option Bool → Bool
unfolding version_ge
error_handling version none = version_ge version (1, 11, 0)
error_handling version (some b) = b

pub data AllocatorType : Type 0 where
  host cuda unsupported : AllocatorType

-- ApplicationContext with the parts of its UCXWorker that it sets. An allocator is numbered.
pub record Context : Type 0 where
  pub config : Options
  pub blocking_progress_mode : Bool
  pub progress_tasks : List ℕ
  pub am_host_allocator : ℕ
  pub am_cuda_allocator : Option ℕ

unfoldable pub has_task : ℕ → List ℕ → Bool
unfolding same_task
has_task loop [] = false
has_task loop (t ∷ ts) = same_task t loop || has_task loop ts

-- `continuous_ucx_progress` for an event loop: one task for each loop.
unfoldable pub continuous_ucx_progress : ℕ → Context → Context
unfolding has_task
continuous_ucx_progress loop c =
    if has_task loop c.progress_tasks
    then c
    else record c { progress_tasks = c.progress_tasks ++ loop ∷ [] }

-- `blocking_progress_mode` of `__init__`, on whether UCXPY_NON_BLOCKING_MODE is defined.
unfoldable pub progress_mode : Option Bool → Bool → Bool
progress_mode (some b) non_blocking = b
progress_mode none non_blocking = not non_blocking

-- What lies outside: the configuration that UCXContext reads back or its failure, the environment's
-- names, the event loop of the caller, the version of UCX, and the default host allocator.
pub record World : Type 0 where
  pub ucp_init : Options → Result Options
  pub env : List Str
  pub non_blocking_mode : Bool
  pub current_loop : ℕ
  pub version : Version
  pub bytearray : ℕ

module _ (w : World) where
  -- `ApplicationContext.__init__`
  unfoldable pub new_context : Options → Option Bool → Result Context
  unfolding continuous_ucx_progress progress_mode
  new_context config_dict blocking = elim (w.ucp_init config_dict) [
    | err x ↦ err x
    | ok config ↦ ok (
        continuous_ucx_progress w.current_loop (record {
          config = config;
          blocking_progress_mode = progress_mode blocking w.non_blocking_mode;
          progress_tasks = [];
          am_host_allocator = w.bytearray;
          am_cuda_allocator = none;
        }))
  ]

  -- The functions below act on the module's variable `_ctx`.
  unfoldable pub get_ctx : Action (Option Context) Context
  unfolding new_context
  get_ctx (some c) = (ok c, some c)
  get_ctx none = elim (new_context [] none) [ ok c ↦ (ok c, some c) | err x ↦ (err x, none) ]

  unfoldable pub init_ucx : Options → Bool → Option Bool → Action (Option Context) (Unit {0})
  unfolding new_context drop_options
  init_ucx options env_takes_precedence blocking (some c) = (err Exn.runtime_error, some c)
  init_ucx options env_takes_precedence blocking none =
      let given = if env_takes_precedence then drop_options w.env options else options in
      elim (new_context given blocking) [ ok c ↦ (ok tt, some c) | err x ↦ (err x, none) ]

  -- `reset`; `referenced` says whether the context is still alive after the collection of garbage.
  unfoldable pub reset : Bool → Action (Option Context) (Unit {0})
  reset referenced none = (ok tt, none)
  reset referenced (some c) = (if referenced then err Exn.ucx_error else ok tt, none)

  -- `get_config`; the first argument is `ucx_api.get_current_options()`.
  unfoldable pub get_config : Result Options → Action (Option Context) Options
  get_config current none = (current, none)
  get_config current (some c) = (ok c.config, some c)

  -- `flush` and `fence` call the worker only where there is a context.
  unfoldable pub flush_or_fence : Result (Unit {0}) → Action (Option Context) (Unit {0})
  flush_or_fence on_worker none = (ok tt, none)
  flush_or_fence on_worker (some c) = (on_worker, some c)

  unfoldable pub on_context :
      {A : Type 0} → (Context → Result A × Context) → Action (Option Context) A
  unfolding get_ctx
  on_context m s =
      let (r, s') = get_ctx s in
      elim r [ ok c ↦ (let (a, c') = m c in (a, some c')) | err x ↦ (err x, s') ]

  with_ctrl_recv : (ℕ × ℕ → Result (Unit {0})) → Result Endpoint → Result Endpoint
  unfolding setup_ctrl_recv
  with_ctrl_recv posted (err x) = err x
  with_ctrl_recv posted (ok ep) = elim (setup_ctrl_recv ep).0 [
    | err x ↦ err x
    | ok to ↦ elim (posted to) [ err x ↦ err x | ok _ ↦ ok ep ]
  ]

  -- `create_endpoint`: UCX makes the handle, the peers exchange their messages (`streams` is how
  -- that ends), the endpoint is made from what the peer sent, and the receive of the control message
  -- is posted (`posted` is how that ends).
  unfoldable pub create_endpoint :
      Digest
      → (Bool → Result UcxEndpoint)
      → Bytes
      → (UcxEndpoint → Result Bytes)
      → (ℕ × ℕ → Result (Unit {0}))
      → Option Bool
      → Action (Option Context) Endpoint
  unfolding on_context continuous_ucx_progress error_handling establish with_ctrl_recv
  create_endpoint sha1 ucx_create seed streams posted handling = on_context λ c. (
    elim (ucx_create (error_handling w.version handling)) [
      | err x ↦ err x
      | ok b ↦ elim (streams b) [
        | err x ↦ err x
        | ok info ↦ with_ctrl_recv posted (establish sha1 b 0 seed info)
      ]
    ],
    continuous_ucx_progress w.current_loop c,
  )

  -- `create_endpoint_from_worker_address`: no exchange, and no tags.
  unfoldable pub create_endpoint_from_worker_address :
      (Bool → Result UcxEndpoint) → Option Bool → Action (Option Context) Endpoint
  unfolding on_context continuous_ucx_progress error_handling init
  create_endpoint_from_worker_address ucx_create handling = on_context λ c. (
    elim (ucx_create (error_handling w.version handling)) [
      | err x ↦ err x
      | ok b ↦ ok (init b 0 none)
    ],
    continuous_ucx_progress w.current_loop c,
  )

  -- `create_listener`: the port that is asked for, 0 for None, and the error handling of the
  -- endpoints that it makes; `ucx_listen` is UCXListener.
  unfoldable pub create_listener :
      {A : Type 0} → (ℕ → Bool → Result A) → Option ℕ → Option Bool → Action (Option Context) A
  unfolding on_context continuous_ucx_progress error_handling
  create_listener ucx_listen port handling = on_context λ c. (
    ucx_listen (elim port [ none ↦ 0 | some p ↦ p ]) (error_handling w.version handling),
    continuous_ucx_progress w.current_loop c,
  )

  -- `UCXWorker.register_am_allocator`, for a type that `register_am_allocator` has read.
  unfoldable pub set_allocator : ℕ → AllocatorType → Context → Result (Unit {0}) × Context
  unfolding version_ge
  set_allocator allocator type c =
      if version_ge w.version (1, 11, 0)
      then (elim type [
        | host ↦ (ok tt, record c { am_host_allocator = allocator })
        | cuda ↦ (ok tt, record c { am_cuda_allocator = some allocator })
        | unsupported ↦ (err Exn.ucx_error, c)
      ])
      else (err Exn.runtime_error, c)

  -- "host" and "cuda" name a type.
  unfoldable pub register_am_allocator : ℕ → Str → Action (Option Context) (Unit {0})
  unfolding on_context set_allocator eq_str
  register_am_allocator allocator name =
      let type =
        if eq_str name (104 ∷ 111 ∷ 115 ∷ 116 ∷ [])
        then host
        else (if eq_str name (99 ∷ 117 ∷ 100 ∷ 97 ∷ []) then cuda else unsupported) in
      on_context (set_allocator allocator type)
