-- ===== src/Core/Endpoint/Events.antt =====
-- The life of an endpoint as a sequence of events: its coroutines run from await to await in any
-- order, and UCX reports errors and closes handles in between.
use ucx_py.Prelude.{ℕ, ◌≤◌, ◌<◌, ◌≡◌, ◌⊎◌, Bool, true, false, Option, none, some}
use ucx_py.Exceptions.{Result}
use ucx_py.Hash.{Digest}
use ucx_py.Struct.{Bytes}
use ucx_py.Libs.Ucs.{UcsStatus, is_ucs_ok}
use ucx_py.Libs.UcxEndpoint.{UcxEndpoint}
use ucx_py.Libs.UcxEndpoint
use ucx_py.Core.Endpoint.{
  Endpoint, UserTag, closed, abort, send_start, send_end, am_send_start, recv_start, am_recv_start,
  recv_end, close_after_n_recv, set_close_callback,
}
use ucx_py.Core.Endpoint.Close.{close_start, close_sent, close_slept}
use ucx_py.Core.Endpoint.Ctrl.{handle_ctrl_msg}

-- The handle of a live endpoint is changed from outside: by UCX's error callback, or by the
-- worker, which closes it as one of its children.
abbrev on_backend : (UcxEndpoint → UcxEndpoint) → Endpoint → Endpoint
on_backend f e = elim e.ep [ none ↦ e | some b ↦ record e { ep = some (f b) } ]

pub data Event : Type 0 where
  send : Result ℕ → Option UserTag → Bool → Event
  sent : Result (Unit {0}) → Event
  am_send : Result ℕ → Event
  recv : (ℕ → Bool) → Result ℕ → Option UserTag → Bool → Event
  am_recv : Bool → Event
  received : Result (Unit {0}) → Event
  close_after : ℕ → Bool → Event
  ctrl : Bytes → Result (Unit {0}) → Event
  abort_now : Event
  close : Event
  close_msg_sent : Result (Unit {0}) → Event
  close_woken : Result (Unit {0}) → Event
  set_callback : ℕ → Event
  endpoint_error : UcsStatus → Event
  worker_closes : Event

module _ (sha1 : Digest) where
  -- The state after an event; what the call returns or raises is dropped.
  unfoldable pub apply : Event → Endpoint → Endpoint
  apply (send buffer tag force) e = (send_start sha1 buffer tag force e).1
  apply (sent r) e = (send_end r e).1
  apply (am_send buffer) e = (am_send_start buffer e).1
  apply (recv probe buffer tag force) e = (recv_start sha1 probe buffer tag force e).1
  apply (am_recv probe) e = (am_recv_start probe e).1
  apply (received r) e = (recv_end r e).1
  apply (close_after n b) e = (close_after_n_recv n b e).1
  apply (ctrl msg r) e = (handle_ctrl_msg msg r e).1
  apply abort_now e = (abort e).1
  apply close e = (close_start e).1
  apply (close_msg_sent r) e = (close_sent r e).1
  apply (close_woken r) e = (close_slept r e).1
  apply (set_callback f) e = (set_close_callback f e).1
  apply (endpoint_error s) e = on_backend (UcxEndpoint.err_cb s) e
  apply worker_closes e = on_backend (λ b. (UcxEndpoint.close_by_worker b).1) e

  -- When an event can happen: a receive ends that has begun, and the error callback is called with
  -- an error.
  abbrev pub Enabled : Event → Endpoint → Type 0
  Enabled (received r) e = e.finished_recv_count < e.recv_count
  Enabled (endpoint_error s) e = is_ucs_ok s ≡ false
  Enabled _ e = Unit

  -- The states that an endpoint comes to.
  pub data Reach (e : Endpoint) : Endpoint → Type 0 where
    here : Reach e e
    next : {f : Endpoint} → Reach e f → (ev : Event) → Enabled ev f → Reach e (apply ev f)

abbrev OnTime : Option ℕ → ℕ → Bool → Type 0
OnTime none finished shut = Unit
OnTime (some n) finished shut = (finished < n) ⊎ (shut ≡ true)

-- What holds at every await: no more receives have ended than begun, and an endpoint that is to
-- close after n messages is closed once n have come.
pub record Inv (e : Endpoint) : Type 0 where
  pub counted : e.finished_recv_count ≤ e.recv_count
  pub on_time : OnTime e.close_after e.finished_recv_count (closed e)
