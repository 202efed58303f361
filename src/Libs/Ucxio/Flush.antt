-- ===== src/Libs/Ucxio/Flush.antt =====
-- How a flush ends.
use ucx_py.Prelude.{
  ℕ, ◌+◌, ◌<◌, ◌^◌, ◌≡◌, refl, zero, suc, false, Option, none, some, [], ◌∷◌, ap, ◌∙◌,
  if◌then◌else◌,
}
use ucx_py.Exceptions.{Exn}
use ucx_py.Libs.Transfer.{send, verdict}
use ucx_py.Libs.Transfer.Answers.{
  Course, at_once, refused, early, late, answered, transfer-answered,
}
use ucx_py.Libs.Ucxio.{Outcome, returned, raised, blocked, block_on_request, idle, wait_for, flush}

unfoldable pub by_verdict : Option Exn → Outcome (Unit {0})
by_verdict none = returned tt
by_verdict (some x) = blocked

-- A flush that UCX completes with an error, once it is in progress, is waited for without end.
unfoldable pub ending : Course → Outcome (Unit {0})
unfolding by_verdict
ending at_once = returned tt
ending refused = raised Exn.ucx_error
ending (early status length) = returned tt
ending (late status length) = by_verdict (verdict send status length 0)

pub block_on_request-idle :
    (delay : ℕ) (x : Option Exn)
    → (if block_on_request false (idle delay (some x ∷ [])) then returned tt else blocked)
      ≡ by_verdict x
unfolding block_on_request by_verdict
block_on_request-idle zero none = refl
block_on_request-idle zero (some x) = refl
block_on_request-idle (suc delay) x = block_on_request-idle delay x

wait_for-answered :
    (delay : ℕ) (course : Course) → wait_for delay (answered send 0 course) ≡ ending course
unfolding wait_for ending answered
wait_for-answered delay at_once = refl
wait_for-answered delay refused = refl
wait_for-answered delay (early status length) = refl
wait_for-answered delay (late status length) =
    block_on_request-idle delay (verdict send status length 0)

-- Before the counter of requests comes round, `flush` of a stream returns where UCX flushes at once
-- or before the call returns, raises UCXError where UCX refuses, and where UCX completes the flush
-- later it returns if that is a success; if the flush is completed later with an error or as
-- cancelled, `flush` polls the worker without end.
pub flush-ending :
    (counter delay : ℕ) (course : Course)
    → counter + 1 < 2 ^ 32
    → flush counter delay course ≡ ending course
unfolding flush
flush-ending counter delay course bound =
    ap (wait_for delay) (transfer-answered send 0 counter course bound)
    ∙ wait_for-answered delay course
