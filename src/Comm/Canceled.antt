-- ===== src/Comm/Canceled.antt =====
-- A receive of active messages whose endpoint is closed is not left waiting.
use ucx_py.Prelude.{ℕ, ◌≡◌, refl, true, List, [], ◌∷◌, ◌++◌, map, insert, arith}
use ucx_py.Exceptions.{Exn, Result, ok, err}
use ucx_py.Comm.{pending, finished, am_cb_func}
use ucx_py.Comm.Calls.{Setting, am_future, am_receive}
use ucx_py.Libs.Transfer.{guard}
use ucx_py.Libs.ActiveMessage.{
  Object, Delivery, Tables, queue, am_recv_nb, cancel_receive, cancel_am_recv_single, queue-insert,
}

am_future_finished :
    (r : ℕ) (ds : List Delivery) (x : Result Object) → am_future r ds (finished x) ≡ finished x
unfolding am_future am_cb_func
am_future_finished r [] x = refl
am_future_finished r (d ∷ ds) x = ground (arith, am_future_finished r ds x)

am_future-cancel :
    (r : ℕ) (before : List ℕ)
    → am_future r (map cancel_receive (before ++ r ∷ [])) pending ≡ finished (err Exn.ucx_canceled)
unfolding am_future am_cb_func
am_future-cancel r [] = ground arith
am_future-cancel r (b ∷ before) = ground (
  arith,
  am_future-cancel r before,
  am_future_finished r (map cancel_receive (before ++ r ∷ [])) (err Exn.ucx_canceled),
)

-- Where the context has the feature and no message waits for the endpoint, `am_recv` makes a future
-- that is pending and puts the receive behind those that wait; the cancelling of the endpoint's
-- receives, when nothing came in between, finishes the future with UCXCanceled.
pub am_receive-cancel :
    (c : Setting) (ep r : ℕ) (t : Tables)
    → c.am_feature ≡ true
    → queue ep t.pool ≡ []
    → let after = record t { wait = insert ep (queue ep t.wait ++ r ∷ []) t.wait } in
      (am_receive c ep r t ≡ ok (pending, after))
      × (am_future r (cancel_am_recv_single ep after).0 pending ≡ finished (err Exn.ucx_canceled))
unfolding cancel_am_recv_single am_receive am_recv_nb guard am_future
am_receive-cancel c ep r t on empty = (
  rw (am_receive, on, am_recv_nb, empty),
  rw (queue-insert ep (queue ep t.wait ++ r ∷ []) t.wait) (am_future-cancel r (queue ep t.wait)),
)
