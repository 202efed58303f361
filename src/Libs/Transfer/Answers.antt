-- ===== src/Libs/Transfer/Answers.antt =====
-- How a transfer is answered, over the request and the future of ucp/comm.py.
use ucx_py.Prelude.{
  ℕ, ◌+◌, ◌<◌, ◌^◌, ◌≡◌, refl, Bool, true, false, if◌then◌else◌, Option, none, some, List, [], ◌∷◌,
  ◌++◌, arith,
}
use ucx_py.Exceptions.{Exn, Result, ok, err, ◌>>=◌}
use ucx_py.Libs.Ucs.{UcsStatus}
use ucx_py.Libs.Request.{
  Request, fresh, wrap, closed, close, inline, failed, request, handle_status,
}
use ucx_py.Libs.Transfer.{Kind, verdict, callback}
use ucx_py.Comm.{Future, pending, finished, cb_func, call_ucx_api, callbacks}

-- What UCX does with a transfer: it completes inline, it fails, or it takes a request and completes
-- that, with a status and a length, before its function returns or later.
pub data Course : Type 0 where
  at_once refused : Course
  early late : UcsStatus → ℕ → Course

-- The callback's calls up to the return of the transfer function, how that returns, the calls
-- later, and the request in the end.
pub record Trace : Type 0 where
  pub before : List (Option Exn)
  pub outcome : Result Bool
  pub later : List (Option Exn)
  pub memory : Request

unfoldable pub transfer : Kind → ℕ → ℕ → Course → Trace
transfer k expected counter at_once =
    let ((xs, a), (c, r)) = handle_status inline expected counter fresh in
    record { before = xs; outcome = a; later = []; memory = r }
transfer k expected counter refused =
    let ((xs, a), (c, r)) = handle_status failed expected counter fresh in
    record { before = xs; outcome = a; later = []; memory = r }
transfer k expected counter (early status length) =
    let (xs, (c, r)) = callback k status length counter fresh in
    let ((ys, a), (c', r')) = handle_status request expected c r in
    record { before = xs ++ ys; outcome = a; later = []; memory = r' }
transfer k expected counter (late status length) =
    let ((xs, a), (c, r)) = handle_status request expected counter fresh in
    let (ys, (c', r')) = callback k status length c r in
    record { before = xs; outcome = a; later = ys; memory = r' }

-- The answer that the caller is due.
unfoldable pub answered : Kind → ℕ → Course → Trace
answered k expected at_once = record { before = []; outcome = ok false; later = []; memory = fresh }
answered k expected refused = record {
  before = [];
  outcome = err Exn.ucx_error;
  later = [];
  memory = fresh;
}
answered k expected (early status length) = record {
  before = none ∷ [];
  outcome = ok false;
  later = [];
  memory = fresh;
}
answered k expected (late status length) = record {
  before = [];
  outcome = ok true;
  later = verdict k status length expected ∷ [];
  memory = fresh;
}

-- Before the counter of requests comes round, every transfer that is not refused answers exactly
-- once, by returning None or by one call of the callback, and its request goes back to UCX; a
-- completion after the return is answered by its status and length, one before the return as a
-- success whatever its status and length.
pub transfer-answered :
    (k : Kind) (expected counter : ℕ) (course : Course)
    → counter + 1 < 2 ^ 32
    → transfer k expected counter course ≡ answered k expected course
unfolding transfer answered callback handle_status wrap closed close
transfer-answered k expected counter at_once bound = refl
transfer-answered k expected counter refused bound = refl
transfer-answered k expected counter (early status length) bound = ground arith
transfer-answered k expected counter (late status length) bound = ground arith

-- The future of the transfer, once UCX has completed it; `loop_is_closed` says whether the event loop
-- has been closed by the time of a completion after the return.
unfoldable pub future : Bool → Trace → Result (Future (Unit {0}))
future loop_is_closed t =
    call_ucx_api false t.before t.outcome >>= λ f. ok (callbacks t.later loop_is_closed f)

by_answer : Option Exn → Future (Unit {0})
by_answer none = finished (ok tt)
by_answer (some x) = finished (err x)

resolved_late :
    (v : Option Exn) (shut : Bool)
    → (call_ucx_api false [] (ok true) >>= λ f. ok (callbacks (v ∷ []) shut f))
      ≡ ok (if shut then pending else by_answer v)
unfolding by_answer call_ucx_api callbacks cb_func
resolved_late none true = refl
resolved_late none false = refl
resolved_late (some x) true = refl
resolved_late (some x) false = refl

-- How the future is to end.
unfoldable pub settled : Kind → ℕ → Course → Bool → Result (Future (Unit {0}))
unfolding by_answer
settled k expected at_once shut = ok (finished (ok tt))
settled k expected refused shut = err Exn.ucx_error
settled k expected (early status length) shut = ok (finished (ok tt))
settled k expected (late status length) shut =
    ok (if shut then pending else by_answer (verdict k status length expected))

-- Before the counter of requests comes round, the future of a transfer is finished once UCX has
-- completed it, with True or, where the completion came after the return, the exception that its
-- status and length call for; only if the event loop has been closed by the time of such a late
-- completion does the future stay pending; a transfer that UCX refuses raises UCXError and makes
-- none.
pub future-transfer :
    (k : Kind) (expected counter : ℕ) (course : Course) (loop_is_closed : Bool)
    → counter + 1 < 2 ^ 32
    → future loop_is_closed (transfer k expected counter course)
      ≡ settled k expected course loop_is_closed
unfolding future settled answered call_ucx_api callbacks cb_func
future-transfer k expected counter at_once shut bound =
    rw (transfer-answered k expected counter at_once bound) refl
future-transfer k expected counter refused shut bound =
    rw (transfer-answered k expected counter refused bound) refl
future-transfer k expected counter (early status length) shut bound =
    rw (transfer-answered k expected counter (early status length) bound) refl
future-transfer k expected counter (late status length) shut bound =
    rw (transfer-answered k expected counter (late status length) bound)
      (resolved_late (verdict k status length expected) shut)
