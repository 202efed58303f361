-- ===== src/Comm/Resolve.antt =====
-- A future of ucp/comm.py is resolved once, by the first answer.
use ucx_py.Prelude.{◌≡◌, refl, Bool, true, false, Option, none, some, List, [], ◌∷◌, arith}
use ucx_py.Exceptions.{Exn, Result, ok, err, ◌>>=◌}
use ucx_py.Comm.{Future, pending, finished, done, cb_func, callbacks, call_ucx_api}

callbacks-done :
    (xs : List (Option Exn)) (shut : Bool) (f : Future (Unit {0}))
    → done f ≡ true
    → callbacks xs shut f ≡ f
unfolding callbacks cb_func
callbacks-done [] shut f h = refl
callbacks-done (x ∷ xs) shut f h = ground (arith, callbacks-done xs shut f h)

answer : Option Exn → Future (Unit {0})
answer none = finished (ok tt)
answer (some x) = finished (err x)

-- What a future ends as: the answer of the first callback, or True where the function returned
-- None before any; pending where a request was returned and no callback has come.
unfoldable pub first_answer : Bool → List (Option Exn) → List (Option Exn) → Future (Unit {0})
unfolding answer
first_answer has_request (x ∷ inline) later = answer x
first_answer false [] later = finished (ok tt)
first_answer true [] (x ∷ later) = answer x
first_answer true [] [] = pending

-- While the event loop is open, an API function that makes callbacks before and after it returns
-- resolves the future by the first answer alone; no later callback changes it; a function that
-- raises makes no future.
pub call_ucx_api_resolves :
    (inline later : List (Option Exn)) (req : Result Bool)
    → (call_ucx_api false inline req >>= λ f. ok (callbacks later false f))
      ≡ (req >>= λ has_request. ok (first_answer has_request inline later))
unfolding call_ucx_api callbacks first_answer cb_func
call_ucx_api_resolves inline later (err x) = refl
call_ucx_api_resolves (none ∷ inline) later (ok has_request) = ground (
  arith,
  callbacks-done inline false (finished (ok tt)),
  callbacks-done later false (finished (ok tt)),
)
call_ucx_api_resolves (some x ∷ inline) later (ok has_request) = ground (
  arith,
  callbacks-done inline false (finished (err x)),
  callbacks-done later false (finished (err x)),
)
call_ucx_api_resolves [] later (ok false) =
    ground (arith, callbacks-done later false (finished (ok tt)))
call_ucx_api_resolves [] (none ∷ later) (ok true) =
    ground (arith, callbacks-done later false (finished (ok tt)))
call_ucx_api_resolves [] (some x ∷ later) (ok true) =
    ground (arith, callbacks-done later false (finished (err x)))
call_ucx_api_resolves [] [] (ok true) = refl
