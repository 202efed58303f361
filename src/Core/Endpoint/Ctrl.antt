-- ===== src/Core/Endpoint/Ctrl.antt =====
-- `CtrlMsg.setup_ctrl_recv` and `CtrlMsg.handle_ctrl_msg` of ucp/core.py: the receive of a control
-- message, and what an endpoint does with the message.
use ucx_py.Prelude.{ℕ, true, ◌==◌, if◌then◌else◌}
use ucx_py.Exceptions.{Exn, Result, ok, err}
use ucx_py.Action.{Action, pure, raise, lift, gets, or_raise, ◌>>=◌, ◌>>◌}
use ucx_py.Struct.{Bytes}
use ucx_py.Core.CtrlMsg.{deserialize}
use ucx_py.Core.Endpoint.{Endpoint, uid, closed, abort, close_after_n_recv}

-- `setup_ctrl_recv`: the size and the tag of the receive that it posts.
unfoldable pub setup_ctrl_recv : Action Endpoint (ℕ × ℕ)
unfolding uid
setup_ctrl_recv = do
  uid
  tags ← gets (λ e. e.tags)
  t ← or_raise tags Exn.type_error
  pure (16, t.ctrl_recv)

obey : ℕ × ℕ → Action Endpoint (Unit {0})
unfolding close_after_n_recv
obey (opcode, n) = if opcode == 1 then close_after_n_recv n true else raise Exn.ucx_error

on_message : Bytes → Action Endpoint (Unit {0})
unfolding closed abort obey
on_message msg e = if closed e then abort e else (do m ← lift (deserialize msg); obey m) e

-- `future` is the outcome of the control receive. The weak reference to the endpoint is alive here:
-- with a dead one the handler returns or raises what `future.result()` raises.
unfoldable pub handle_ctrl_msg : Bytes → Result (Unit {0}) → Action Endpoint (Unit {0})
unfolding on_message
handle_ctrl_msg msg (ok _) = on_message msg
handle_ctrl_msg msg (err Exn.ucx_canceled) = pure tt
handle_ctrl_msg msg (err x) = raise x
