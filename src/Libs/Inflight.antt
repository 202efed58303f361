-- ===== src/Libs/Inflight.antt =====
-- The messages in flight of ucp/_libs/ucx_endpoint.pyx and ucx_worker.pyx: the sets of requests, what
-- the error callback schedules for cancelling, and the cancelling.
pub mod Cancel
mod Tests
use ucx_py.Prelude.{
  ℕ, ◌+◌, Bool, true, false, Option, none, some, List, [], ◌∷◌, ◌++◌, ◌==◌, if◌then◌else◌, length,
  update, add, discard, contains,
}
use ucx_py.Libs.ActiveMessage.{Delivery, Tables, cancel_am_recv_single}

-- A worker: does it support active messages, `_inflight_msgs_to_cancel` with its keys "tag", requests
-- by number, and "am", endpoints by handle, the tables of active messages, and which requests are
-- not closed.
pub record Worker : Type 0 where
  pub am_enabled : Bool
  pub to_cancel_tag : List ℕ
  pub to_cancel_am : List ℕ
  pub tables : Tables
  pub is_open : ℕ → Bool

-- What happens: `ucp_request_cancel` is called on requests, and receives are answered.
pub record Log : Type 0 where
  pub canceled : List ℕ
  pub deliveries : List Delivery

-- `_err_cb` on the requests in flight of the endpoint: the last lines of the callback.
unfoldable pub schedule : List ℕ → ℕ → Worker → Worker
schedule inflight_msgs ep w = record w {
  to_cancel_tag = update inflight_msgs w.to_cancel_tag;
  to_cancel_am = if w.am_enabled then add ep w.to_cancel_am else w.to_cancel_am;
}

-- `request_cancel` on an open request: `answers` says for which requests UCX calls their callback with
-- that, which closes them; the others are answered when the worker progresses.
abbrev pub settle : (ℕ → Bool) → ℕ → (ℕ → Bool) → ℕ → Bool
settle answers r is_open x = if x == r then (if answers r then false else is_open x) else is_open x

-- The loop of `_cancel_inflight_msgs`: the requests on which `request_cancel` is called.
unfoldable pub cancel_each : (ℕ → Bool) → List ℕ → (ℕ → Bool) → List ℕ × (ℕ → Bool)
cancel_each answers [] is_open = ([], is_open)
cancel_each answers (r ∷ rs) is_open =
    let (later, end) =
      cancel_each answers rs (if is_open r then settle answers r is_open else is_open) in
    ((if is_open r then r ∷ later else later), end)

-- The loop of `_cancel_am_recv` over the endpoints.
unfoldable pub cancel_am_each : List ℕ → Tables → List Delivery × ℕ × Tables
cancel_am_each [] t = ([], 0, t)
cancel_am_each (ep ∷ eps) t =
    let (ds, n, t') = cancel_am_recv_single ep t in
    let (later, m, t'') = cancel_am_each eps t' in (ds ++ later, n + m, t'')

-- `_cancel_am_recv` without a handle.
unfoldable pub cancel_am_recv : Worker → List Delivery × ℕ × Worker
unfolding cancel_am_each
cancel_am_recv w =
    if w.am_enabled
    then (let (ds, n, t) = cancel_am_each w.to_cancel_am w.tables in
        (ds, n, record w { tables = t; to_cancel_am = [] }))
    else ([], 0, w)

-- `UCXWorker.cancel_inflight_messages`: `_cancel_inflight_msgs` on the scheduled requests, which are
-- counted whether they are open or not, and `_cancel_am_recv`.
unfoldable pub cancel_inflight_messages : (ℕ → Bool) → Worker → Log × ℕ × Worker
unfolding cancel_each cancel_am_recv
cancel_inflight_messages answers w =
    let (rs, is_open) = cancel_each answers w.to_cancel_tag w.is_open in
    let (ds, n, w') = cancel_am_recv (record w { to_cancel_tag = []; is_open = is_open }) in
    (record { canceled = rs; deliveries = ds }, length w.to_cancel_tag + n, w')

-- The same in `_ucx_endpoint_finalizer`, on the endpoint's own requests and handle.
unfoldable pub cancel_endpoint : (ℕ → Bool) → List ℕ → ℕ → Worker → Log × Worker
unfolding cancel_each
cancel_endpoint answers inflight_msgs ep w =
    let (rs, is_open) = cancel_each answers inflight_msgs w.is_open in
    let w' = record w { is_open = is_open } in
    if w.am_enabled
    then (let (ds, n, t) = cancel_am_recv_single ep w.tables in
        (
          record { canceled = rs; deliveries = ds },
          record w' { tables = t; to_cancel_am = discard ep w.to_cancel_am },
        ))
    else (record { canceled = rs; deliveries = [] }, w')
