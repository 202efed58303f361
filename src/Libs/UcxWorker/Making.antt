-- ===== src/Libs/UcxWorker/Making.antt =====
-- `UCXWorker.__init__` of ucp/_libs/ucx_worker.pyx, with the statuses of `ucp_worker_create` and of
-- `ucp_worker_set_am_recv_handler`.
use ucx_py.Prelude.{◌≡◌, Bool, true, false, Option, none, some, List, [], ℕ, if◌then◌else◌, arith}
use ucx_py.Exceptions.{Exn, Result, ok, err, ◌>>=◌, is_ok}
use ucx_py.Libs.Ucs.{UcsStatus, assert_ucs_status}

-- The feature flags of the context that are asked for.
pub record Features : Type 0 where
  pub tag : Bool
  pub am : Bool

-- The attributes for active messages: no allocator for CUDA memory is there yet.
pub record AmState : Type 0 where
  pub host_allocator : Bool
  pub cuda_allocator : Bool
  pub handler_status : UcsStatus

-- `tag_enabled` is the last argument of the finalizer.
pub record Made : Type 0 where
  pub inflight_msgs : List ℕ
  pub to_cancel_am : List ℕ
  pub to_cancel_tag : List ℕ
  pub am : Option AmState
  pub tag_enabled : Bool
  pub is_child : Bool

unfoldable pub worker_init : Bool → Features → UcsStatus → UcsStatus → Result Made
worker_init initialized features create handler =
    if initialized
    then (assert_ucs_status create >>= λ _. ok (record {
      inflight_msgs = [];
      to_cancel_am = [];
      to_cancel_tag = [];
      am =
          if features.am
          then some
              (record { host_allocator = true; cuda_allocator = false; handler_status = handler })
          else none;
      tag_enabled = features.tag;
      is_child = true;
    }))
    else err Exn.assertion_error

-- The making of a worker depends on the creation alone: a handler for active messages that UCX refuses
-- goes unnoticed.
worker_init_unnoticed :
    (initialized : Bool) (features : Features) (create handler handler' : UcsStatus)
    → is_ok (worker_init initialized features create handler)
      ≡ is_ok (worker_init initialized features create handler')
unfolding worker_init assert_ucs_status
worker_init_unnoticed initialized features create handler handler' = ground arith
