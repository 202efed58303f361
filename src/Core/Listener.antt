-- ===== src/Core/Listener.antt =====
-- The listener of ucp/core.py: class Listener, and what happens to a connection request.
use ucx_py.Prelude.{ℕ, Bool, false, not, Option, if◌then◌else◌}
use ucx_py.Exceptions.{Exn, Result, ok, err, ◌>>=◌, ◌>>◌}
use ucx_py.Action.{Action}
use ucx_py.Hash.{Digest}
use ucx_py.Struct.{Bytes}
use ucx_py.Libs.UcxEndpoint.{UcxEndpoint}
use ucx_py.Core.Endpoint.{Endpoint}
use ucx_py.Core.Endpoint.Ctrl.{setup_ctrl_recv}
use ucx_py.Core.PeerInfo.{establish}
use ucx_py.Core.Context.{Context, World, on_context}

-- UCXListener, `_b`, as far as Listener reads it; the address is numbered.
pub record Listener : Type 0 where
  pub initialized : Bool
  pub ip : ℕ
  pub port : ℕ

-- `__init__`
unfoldable pub new_listener : Listener → Result Listener
new_listener backend = if backend.initialized then ok backend else err Exn.assertion_error

unfoldable pub listener_closed : Listener → Bool
listener_closed l = not l.initialized

unfoldable pub close_listener : Listener → Listener
close_listener l = record l { initialized = false }

-- `_listener_handler_coroutine`: `endpoint` is what UCX makes of the request, `streams` how the
-- exchange ends, `posted` how the posting of the control receive ends, and `func` the callback.
unfoldable pub listener_handler_coroutine :
    Digest
    → Result UcxEndpoint
    → ℕ
    → Bytes
    → (UcxEndpoint → Result Bytes)
    → (ℕ × ℕ → Result (Unit {0}))
    → (Endpoint → Result (Unit {0}))
    → Result (Unit {0})
unfolding setup_ctrl_recv establish
listener_handler_coroutine sha1 endpoint ctx seed streams posted func = endpoint >>= λ b.
    (streams b >>= λ info.
    (establish sha1 b ctx seed info >>= λ ep. ((setup_ctrl_recv ep).0 >>= posted) >> func ep))

-- `recv` on the worker: the size and the tag of the receive. `buffer` is what `Array(buffer)` gives.
unfoldable pub recv : World → Result ℕ → ℕ → Action (Option Context) (ℕ × ℕ)
unfolding on_context
recv w buffer tag = on_context w λ c. (buffer >>= λ nbytes. ok (nbytes, tag), c)
