-- ===== src/Libs/Rkey.antt =====
-- The remote key of ucp/_libs/ucx_rkey.pyx: how its finalizer flushes the endpoint and destroys the key.
use ucx_py.Prelude.{ℕ, ◌+◌, ◌<◌, ◌^◌, ◌≡◌, Bool, true, false, Option, List, [], ◌∷◌, length}
use ucx_py.Exceptions.{Exn, Result, ok, err}
use ucx_py.Libs.Transfer.{send}
use ucx_py.Libs.Transfer.Answers.{
  Course, at_once, refused, early, late, transfer, answered, transfer-answered,
}

-- `_ucx_remote_mem_finalizer_post_flush`: whatever the exception, one call of `ucp_rkey_destroy`.
post_flush : List (Option Exn) → ℕ
post_flush [] = 0
post_flush (exception ∷ calls) = 1 + post_flush calls

-- The finalizer's own call, where `req` is None.
when_none : Result Bool → ℕ
when_none (ok false) = 1
when_none (ok true) = 0
when_none (err x) = 0

-- `_ucx_rkey_finalizer`: how often the key is destroyed, over the flush that it makes.
unfoldable pub rkey_finalizer : ℕ → Course → ℕ
unfolding post_flush when_none
rkey_finalizer counter course =
    let t = transfer send 0 counter course in
    post_flush t.before + when_none t.outcome + post_flush t.later

-- How often the key is destroyed by the way the flush goes: twice where UCX completes it before
-- `ucp_ep_flush_nb` returns, since the callback is called and `flush` returns None too, and never
-- where it is refused.
unfoldable pub destroyed : Course → ℕ
destroyed at_once = 1
destroyed refused = 0
destroyed (early status length) = 2
destroyed (late status length) = 1

-- Before the counter of requests comes round, the finalizer of a remote key destroys the key once
-- where the flush that it makes is done at once or is completed later, twice where UCX completes it
-- before the call returns, and never where UCX refuses it.
pub rkey_finalizer-destroyed :
    (counter : ℕ) (course : Course)
    → counter + 1 < 2 ^ 32
    → rkey_finalizer counter course ≡ destroyed course
unfolding rkey_finalizer destroyed answered
rkey_finalizer-destroyed counter at_once bound = rw (transfer-answered send 0 counter at_once bound)
rkey_finalizer-destroyed counter refused bound = rw (transfer-answered send 0 counter refused bound)
rkey_finalizer-destroyed counter (early status length) bound =
    rw (transfer-answered send 0 counter (early status length) bound)
rkey_finalizer-destroyed counter (late status length) bound =
    rw (transfer-answered send 0 counter (late status length) bound)
