-- ===== src/Libs/Testing.antt =====
-- ucp/_libs/utils_test.py: the calls that post an operation and poll the worker until it is finished.
use ucx_py.Prelude.{ℕ, ◌+◌, ◌<◌, ◌^◌, ◌≡◌, refl, Option, none, some, List, [], ◌∷◌, ap, ◌∙◌}
use ucx_py.Exceptions.{Exn}
use ucx_py.Libs.Transfer.{Kind, verdict}
use ucx_py.Libs.Transfer.Answers.{
  Course, at_once, refused, early, late, transfer, answered, transfer-answered,
}
use ucx_py.Libs.Ucxio.{Outcome, returned, raised, blocked, wait_for}
use ucx_py.Libs.Ucxio.Flush.{by_verdict, block_on_request-idle}

-- `blocking_send`, `blocking_recv`, `blocking_am_send` and `blocking_flush`, whose `blocking_handler` is
-- that of UCXIO; the worker is progressed `delay` times before UCX answers.
unfoldable pub blocking : Kind → ℕ → ℕ → ℕ → Course → Outcome (Unit {0})
blocking kind nbytes counter delay course = wait_for delay (transfer kind nbytes counter course)

-- `blocking_am_recv` over what `blocking_am_recv_handler` is called with as the worker is progressed: the
-- object that is received, or an exception, whose failed assertion leaves `ret` as it is.
unfoldable pub blocking_am_recv : List (Option (List ℕ)) → Outcome (List ℕ)
blocking_am_recv [] = blocked
blocking_am_recv (some recv_obj ∷ rest) = returned recv_obj
blocking_am_recv (none ∷ rest) = blocking_am_recv rest

-- How each of them is to end.
unfoldable pub ending : Kind → ℕ → Course → Outcome (Unit {0})
ending kind nbytes at_once = returned tt
ending kind nbytes refused = raised Exn.ucx_error
ending kind nbytes (early status n) = returned tt
ending kind nbytes (late status n) = by_verdict (verdict kind status n nbytes)

wait_for-ending :
    (kind : Kind) (nbytes delay : ℕ) (course : Course)
    → wait_for delay (answered kind nbytes course) ≡ ending kind nbytes course
unfolding wait_for ending answered
wait_for-ending kind nbytes delay at_once = refl
wait_for-ending kind nbytes delay refused = refl
wait_for-ending kind nbytes delay (early status n) = refl
wait_for-ending kind nbytes delay (late status n) =
    block_on_request-idle delay (verdict kind status n nbytes)

-- Before the counter of requests comes round, a blocking call returns where the operation ends well or
-- before its function returns, raises UCXError where UCX refuses it, and polls the worker without end
-- where it ends later with an exception.
pub blocking-ending :
    (kind : Kind) (nbytes counter delay : ℕ) (course : Course)
    → counter + 1 < 2 ^ 32
    → blocking kind nbytes counter delay course ≡ ending kind nbytes course
unfolding blocking
blocking-ending kind nbytes counter delay course bound =
    ap (wait_for delay) (transfer-answered kind nbytes counter course bound)
    ∙ wait_for-ending kind nbytes delay course
