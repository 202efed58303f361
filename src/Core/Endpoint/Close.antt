-- ===== src/Core/Endpoint/Close.antt =====
-- `Endpoint.close` of ucp/core.py, cut at its two awaits: the sending of the shutdown message and
-- the `asyncio.sleep(0)` of the `finally` block.
use ucx_py.Prelude.{ℕ, true, none, some, if◌then◌else◌}
use ucx_py.Exceptions.{Exn, Result, ok, err, is_ucx_error}
use ucx_py.Action.{Action, pure, gets, lift, or_raise, ◌>>=◌, ◌>>◌}
use ucx_py.Struct.{Bytes}
use ucx_py.Core.CtrlMsg.{serialize}
use ucx_py.Core.Endpoint.{Endpoint, uid, closed, abort}

-- Where the coroutine stands: it has returned, it awaits the sending of a message with a tag, or
-- it sleeps with the outcome that the `finally` block passes on.
pub data Await : Type 0 where
  returned : Await
  sending : Bytes → ℕ → Await
  sleeping : Result (Unit {0}) → Await

-- The `finally` block up to its await: it progresses the worker, by `self._ctx`.
unfoldable pub finally : Result (Unit {0}) → Action Endpoint Await
unfolding closed
finally pending e =
    if closed e
    then (elim pending [ ok _ ↦ (ok returned, e) | err x ↦ (err x, e) ])
    else (elim e.ctx [ none ↦ (err Exn.attribute_error, e) | some _ ↦ (ok (sleeping pending), e) ])

-- The shutdown message: opcode 1 and the number of messages sent.
shutdown_msg : Action Endpoint (Bytes × ℕ)
unfolding uid
shutdown_msg = do
  count ← gets (λ e. e.send_count)
  msg ← lift (serialize 1 count)
  uid
  tags ← gets (λ e. e.tags)
  t ← or_raise tags Exn.type_error
  pure (msg, t.ctrl_send)

tell_peer : Endpoint → Result Await × Endpoint
unfolding shutdown_msg finally
tell_peer e =
    let (r, e') = shutdown_msg e in
    elim r [ ok (msg, tag) ↦ (ok (sending msg tag), e') | err x ↦ finally (err x) e' ]

unfoldable pub close_start : Action Endpoint Await
unfolding closed abort finally tell_peer
close_start e =
    if closed e
    then (do abort; pure returned) e
    else (if e.shutting_down_peer
        then finally (ok tt) e
        else tell_peer (record e { shutting_down_peer = true }))

-- What `except UCXError` makes of the outcome of the sending; its log message names the handle.
unfoldable pub close_sent : Result (Unit {0}) → Action Endpoint Await
unfolding uid finally is_ucx_error
close_sent (ok r) e = finally (ok r) e
close_sent (err x) e =
    if is_ucx_error x
    then (let (r, e') = uid e in elim r [ ok _ ↦ finally (ok tt) e' | err y ↦ finally (err y) e' ])
    else finally (err x) e

unfoldable pub close_slept : Result (Unit {0}) → Action Endpoint (Unit {0})
unfolding abort
close_slept pending = do abort; lift pending
