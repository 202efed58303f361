-- ===== src/Comm.antt =====
-- ucp/comm.py: the callback API of ucp/_libs as asyncio futures.
pub mod Resolve
pub mod Calls
pub mod Canceled
mod Tests
use ucx_py.Prelude.{
  ℕ, Bool, true, false, not, ◌&&◌, ◌||◌, Option, none, some, List, [], ◌∷◌, if◌then◌else◌,
}
use ucx_py.Exceptions.{Exn, Result, ok, err, ◌>>=◌}

-- An asyncio future: pending, done with a result or an exception, or cancelled by its owner.
pub data Future (A : Type 0) : Type 0 where
  pending : Future A
  finished : Result A → Future A
  cancelled : Future A

abbrev pub done : {A : Type 0} → Future A → Bool
done pending = false
done _ = true

-- `future.set_exception` or `future.set_result`.
abbrev outcome : {A : Type 0} → A → Option Exn → Result A
outcome value none = ok value
outcome value (some x) = err x

-- `_am_cb_func`: the future's result is the received object.
unfoldable pub am_cb_func : {A : Type 0} → A → Option Exn → Bool → Future A → Future A
am_cb_func recv_obj exception loop_is_closed future =
    if loop_is_closed || done future then future else finished (outcome recv_obj exception)

-- `_cb_func`: the result is `True`.
unfoldable pub cb_func : Option Exn → Bool → Future (Unit {0}) → Future (Unit {0})
cb_func exception loop_is_closed future =
    if loop_is_closed || done future then future else finished (outcome tt exception)

-- The calls of the callback with these exceptions, in this order.
unfoldable pub callbacks : List (Option Exn) → Bool → Future (Unit {0}) → Future (Unit {0})
unfolding cb_func
callbacks [] loop_is_closed future = future
callbacks (x ∷ xs) loop_is_closed future =
    callbacks xs loop_is_closed (cb_func x loop_is_closed future)

-- `_call_ucx_api`: `inline` are the callbacks that the API function makes before it returns, and
-- `req` is what it does then: it raises, or returns a request (true) or None (false).
unfoldable pub call_ucx_api : Bool → List (Option Exn) → Result Bool → Result (Future (Unit {0}))
unfolding callbacks
call_ucx_api loop_is_closed inline req = req >>= λ has_request.
    let ret = callbacks inline loop_is_closed pending in
    ok (if not has_request && not (done ret) then finished (ok tt) else ret)

-- What `tag_recv` receives on: a worker directly, or an endpoint, whose worker is used.
pub data Target : Type 0 where
  worker : ℕ → Target
  endpoint : ℕ → ℕ → Target

-- The worker and the endpoint that `tag_recv` hands to `tag_recv_nb`.
unfoldable pub tag_recv_target : Target → ℕ × Option ℕ
tag_recv_target (worker w) = (w, none)
tag_recv_target (endpoint ep w) = (w, some ep)
