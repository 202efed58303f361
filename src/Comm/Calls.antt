-- ===== src/Comm/Calls.antt =====
-- The functions of ucp/comm.py over the transfers of ucp/_libs: each call meets the conditions on the
-- buffer first, and its future is that of the transfer. UCX's course of a transfer is an argument.
use ucx_py.Prelude.{ℕ, Bool, false, List, [], ◌∷◌, ◌==◌, if◌then◌else◌}
use ucx_py.Exceptions.{Result, ok, ◌>>◌, ◌>>=◌}
use ucx_py.Comm.{Future, pending, am_cb_func}
use ucx_py.Libs.UcxEndpoint.{UcxEndpoint}
use ucx_py.Libs.Arr.{Array}
use ucx_py.Libs.Transfer.{send, tag_recv, stream_recv, send_guard, recv_guard, guard}
use ucx_py.Libs.ActiveMessage.{Object, Delivery, Tables, am_recv_nb}
use ucx_py.Libs.AmSend.{am_send_nbx}
use ucx_py.Libs.Transfer.Answers.{Course, transfer, future}

-- The features and the CUDA support of the context, and its counter of requests.
pub record Setting : Type 0 where
  pub tag_feature : Bool
  pub stream_feature : Bool
  pub am_feature : Bool
  pub cuda_support : Bool
  pub counter : ℕ

-- The future of a receive of active messages, after these deliveries.
unfoldable pub am_future : ℕ → List Delivery → Future Object → Future Object
am_future r [] f = f
am_future r (d ∷ ds) f =
    am_future r ds (if d.receive == r then am_cb_func d.recv_obj d.exception false f else f)

module _ (c : Setting) where
  unfoldable pub tag_send : UcxEndpoint → Array → ℕ → Course → Result (Future (Unit {0}))
  tag_send ep buffer nbytes course =
      send_guard ep c.tag_feature c.cuda_support buffer
      >> future false (transfer send nbytes c.counter course)

  unfoldable pub am_send : Array → ℕ → Course → Result (Future (Unit {0}))
  am_send buffer nbytes course =
      am_send_nbx c.am_feature c.cuda_support nbytes c.counter course buffer >>= λ s.
      future false s.trace

  unfoldable pub stream_send : UcxEndpoint → Array → ℕ → Course → Result (Future (Unit {0}))
  stream_send ep buffer nbytes course =
      send_guard ep c.stream_feature c.cuda_support buffer
      >> future false (transfer send nbytes c.counter course)

  -- The worker of an endpoint has the endpoint's context.
  unfoldable pub tag_receive : Array → ℕ → Course → Result (Future (Unit {0}))
  tag_receive buffer nbytes course =
      recv_guard c.tag_feature c.cuda_support buffer
      >> future false (transfer tag_recv nbytes c.counter course)

  unfoldable pub stream_receive : Array → ℕ → Course → Result (Future (Unit {0}))
  stream_receive buffer nbytes course =
      recv_guard c.stream_feature c.cuda_support buffer
      >> future false (transfer stream_recv nbytes c.counter course)

  -- `flush_worker` and `flush_ep`
  unfoldable pub flush : Course → Result (Future (Unit {0}))
  flush course = future false (transfer send 0 c.counter course)

  -- `am_recv` on the tables of the worker, as the receive of this number.
  unfoldable pub am_receive : ℕ → ℕ → Tables → Result (Future Object × Tables)
  am_receive ep r t =
      guard c.am_feature >> (let (ds, t') = am_recv_nb ep r t in ok (am_future r ds pending, t'))
