-- ===== src/Libs/AmSend.antt =====
-- The sending of active messages, `am_send_nbx` of ucp/_libs/transfer_am.pyx: the conditions, the
-- header that tells the receiver the type of the memory, and who frees it.
use ucx_py.Prelude.{
  ℕ, ◌+◌, ◌<◌, ◌^◌, ◌≡◌, Bool, true, false, not, ◌&&◌, ◌||◌, ◌++◌, length, arith, if◌then◌else◌,
}
use ucx_py.Exceptions.{Exn, Result, ok, err, ◌>>◌, ◌>>=◌}
use ucx_py.Libs.Arr.{Array, contiguous}
use ucx_py.Libs.Transfer.{send, guard, cuda_guard}
use ucx_py.Libs.Transfer.Answers.{
  Course, at_once, refused, early, late, Trace, transfer, answered, transfer-answered,
}

-- `UCS_MEMORY_TYPE_HOST` and `UCS_MEMORY_TYPE_CUDA`
pub data MemoryType : Type 0 where
  host cuda : MemoryType

-- A message that was given to UCX: the header, which was allocated, how often it is freed, and the
-- transfer.
pub record Sent : Type 0 where
  pub header : MemoryType
  pub freed : ℕ
  pub trace : Trace

-- `cb_wrapper` frees the header at each call.
unfoldable pub send_header : ℕ → ℕ → Course → Array → Sent
send_header nbytes counter course buffer =
    let t = transfer send nbytes counter course in
    record {
      header = if buffer.cuda then MemoryType.cuda else MemoryType.host;
      freed = length (t.before ++ t.later);
      trace = t;
    }

-- `am_send_nbx`
unfoldable pub am_send_nbx : Bool → Bool → ℕ → ℕ → Course → Array → Result Sent
unfolding guard cuda_guard send_header
am_send_nbx feature cuda_support nbytes counter course buffer =
    (guard feature >> cuda_guard cuda_support buffer >> guard (contiguous buffer)) >>= λ _.
    ok (send_header nbytes counter course buffer)

-- Does UCX call the callback?
unfoldable pub calls_back : Course → Bool
calls_back at_once = false
calls_back refused = false
calls_back (early status length) = true
calls_back (late status length) = true

send_header-freed :
    (nbytes counter : ℕ) (course : Course) (buffer : Array)
    → counter + 1 < 2 ^ 32
    → send_header nbytes counter course buffer ≡ record {
      header = if buffer.cuda then MemoryType.cuda else MemoryType.host;
      freed = if calls_back course then 1 else 0;
      trace = answered send nbytes course;
    }
unfolding send_header calls_back answered
send_header-freed nbytes counter at_once buffer bound =
    rw (transfer-answered send nbytes counter at_once bound)
send_header-freed nbytes counter refused buffer bound =
    rw (transfer-answered send nbytes counter refused bound)
send_header-freed nbytes counter (early status length) buffer bound =
    rw (transfer-answered send nbytes counter (early status length) bound)
send_header-freed nbytes counter (late status length) buffer bound =
    rw (transfer-answered send nbytes counter (late status length) bound)

-- Before the counter of requests comes round, `am_send_nbx` raises ValueError exactly when the
-- feature is not there, the array is of CUDA memory and the context does not support that, or the
-- array is not contiguous; otherwise the header tells the type of the memory, the transfer is
-- answered as a send is, and the allocated header is freed once if UCX calls the callback and never
-- if it sends at once or refuses.
pub am_send_nbx-freed :
    (feature cuda_support : Bool) (nbytes counter : ℕ) (course : Course) (buffer : Array)
    → counter + 1 < 2 ^ 32
    → am_send_nbx feature cuda_support nbytes counter course buffer ≡ (
        if feature && (not buffer.cuda || cuda_support) && contiguous buffer
        then ok (record {
          header = if buffer.cuda then MemoryType.cuda else MemoryType.host;
          freed = if calls_back course then 1 else 0;
          trace = answered send nbytes course;
        })
        else err Exn.value_error)
unfolding am_send_nbx guard cuda_guard
am_send_nbx-freed feature cuda_support nbytes counter course buffer bound =
    rw (send_header-freed nbytes counter course buffer bound) (ground arith)
