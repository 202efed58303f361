-- ===== src/Libs/UcxWorker/Blocking.antt =====
-- The blocking progress mode of UCXWorker (ucp/_libs/ucx_worker.pyx): `arm`, the file descriptor that
-- `init_blocking_progress_mode` makes, and `request_cancel`.
use ucx_py.Prelude.{ℕ, ◌+◌, ◌≡◌, Bool, true, false, not, ◌&&◌, if◌then◌else◌, ◌==◌, suc, arith}
use ucx_py.Exceptions.{Exn, Result, ok, err, is_ok}
use ucx_py.Action.{Action, lift, raise_if, ◌>>=◌, ◌>>◌}
use ucx_py.Libs.Ucs.{UcsStatus, assert_ucs_status}

-- `arm`: false where UCX is busy.
unfoldable pub arm : Bool → UcsStatus → Result Bool
arm initialized UcsStatus.err_busy = if initialized then ok false else err Exn.assertion_error
arm initialized status =
    if initialized
    then (elim (assert_ucs_status status) [ ok _ ↦ ok true | err x ↦ err x ])
    else err Exn.assertion_error

-- What UCX and the system answer: the statuses of `ucp_worker_get_efd` and `ucp_worker_arm`, does
-- `epoll_create` make a descriptor, and what does `epoll_ctl` return?
pub record Epoll : Type 0 where
  pub initialized : Bool
  pub get_efd : UcsStatus
  pub armed : UcsStatus
  pub creates : Bool
  pub ctl : ℕ

-- `epoll_create(1)` on the number of open descriptors.
epoll_create : Epoll → Action ℕ (Unit {0})
epoll_create w n = if w.creates then (ok tt, n + 1) else (err Exn.os_error, n)

-- `init_blocking_progress_mode`; the descriptor that it returns is the one that it opened.
unfoldable pub init_blocking_progress_mode : Epoll → Action ℕ (Unit {0})
unfolding epoll_create
init_blocking_progress_mode w = do
  raise_if (not w.initialized) Exn.assertion_error
  efd ← lift (assert_ucs_status w.get_efd)
  is_armed ← lift (arm w.initialized w.armed)
  epoll_create w
  raise_if (not (w.ctl == 0)) Exn.os_error

-- The worker is initialized, has a descriptor and can be armed or is busy.
abbrev pub comes_to_epoll : Epoll → Bool
comes_to_epoll w =
    w.initialized
    && is_ok (assert_ucs_status w.get_efd)
    && is_ok (arm w.initialized w.armed)
    && w.creates

-- One descriptor more is open exactly when `epoll_create` is come to and makes one, also where
-- `epoll_ctl` then fails and the call raises OSError; the call succeeds just where that does not fail.
pub init_blocking_progress_mode_lem :
    (w : Epoll) (n : ℕ)
    → let (r, n') = init_blocking_progress_mode w n in
      (n' ≡ (if comes_to_epoll w then suc n else n))
      × (is_ok r ≡ (comes_to_epoll w && (w.ctl == 0)))
unfolding init_blocking_progress_mode epoll_create
init_blocking_progress_mode_lem w n = ground arith

-- `request_cancel`: `ucp_request_cancel` is called, or an assertion fails.
unfoldable pub request_cancel : Bool → Bool → Result (Unit {0})
request_cancel initialized closed =
    if initialized && not closed then ok tt else err Exn.assertion_error
