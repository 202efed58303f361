-- ===== src/Libs/Transfer.antt =====
-- The transfers of ucp/_libs: the callbacks `_send_callback` (transfer_common.pyx),
-- `_tag_recv_callback` (transfer_tag.pyx) and `_stream_recv_callback` (transfer_stream.pyx), and the
-- conditions under which `tag_send_nb`, `tag_recv_nb`, `stream_send_nb` and `stream_recv_nb` call UCX.
pub mod Answers
pub mod Posting
mod Tests
use ucx_py.Prelude.{
  ℕ, Bool, true, false, not, Option, none, some, List, [], ◌∷◌, ◌++◌, ◌==◌, if◌then◌else◌,
}
use ucx_py.Exceptions.{Exn, Result, ok, err, ◌>>◌}
use ucx_py.Libs.Ucs.{UcsStatus}
use ucx_py.Libs.UcxEndpoint.{UcxEndpoint, raise_on_error}
use ucx_py.Libs.Arr.{Array, contiguous}
use ucx_py.Libs.Request.{
  Info, Request, wrap, closed, close, Returned, inline, failed, request, handle_status,
}

-- The callback: of a send or flush, of a receive by tag, of a receive from a stream.
pub data Kind : Type 0 where
  send tag_recv stream_recv : Kind

length_check : ℕ → ℕ → Option Exn
length_check length expected = if length == expected then none else some Exn.ucx_msg_truncated

-- The exception by the status, the length and the expected length.
unfoldable pub verdict : Kind → UcsStatus → ℕ → ℕ → Option Exn
unfolding length_check
verdict k UcsStatus.err_canceled length expected = some Exn.ucx_canceled
verdict send UcsStatus.ucs_ok length expected = none
verdict tag_recv UcsStatus.ucs_ok length expected = length_check length expected
verdict stream_recv UcsStatus.ucs_ok length expected = length_check length expected
verdict stream_recv UcsStatus.err_not_connected length expected = some Exn.ucx_not_connected
verdict k _ length expected = some Exn.ucx_error

on_finished : Kind → UcsStatus → ℕ → ℕ → Request → Info → List (Option Exn) × Request
unfolding verdict close
on_finished k status length uid r info = elim info.registered [
  | none ↦ ([], record r { info = some (record info { finished = true }) })
  | some expected ↦ (verdict k status length expected ∷ [], close uid r)
]

-- UCX calls the callback: the calls of the user's callback that it makes. Under `log_errors` a
-- failed assertion ends it.
unfoldable pub callback : Kind → UcsStatus → ℕ → ℕ → Request → List (Option Exn) × (ℕ × Request)
unfolding on_finished wrap closed
callback k status length counter r =
    let (w, (counter', r')) = wrap counter r in
    elim w [
      | err x ↦ ([], (counter', r'))
      | ok uid ↦ if closed uid r' then ([], (counter', r')) else (elim r'.info [
        | none ↦ ([], (counter', r'))
        | some info ↦
            (let (xs, r'') = on_finished k status length uid r' info in (xs, (counter', r'')))
      ])
    ]

-- The conditions on the caller's buffer, and on the features and the CUDA support of the context.
unfoldable pub cuda_guard : Bool → Array → Result (Unit {0})
cuda_guard cuda_support a =
    if a.cuda then (if cuda_support then ok tt else err Exn.value_error) else ok tt

unfoldable pub guard : Bool → Result (Unit {0})
guard b = if b then ok tt else err Exn.value_error

unfoldable pub send_guard : UcxEndpoint → Bool → Bool → Array → Result (Unit {0})
unfolding cuda_guard guard
send_guard ep feature cuda_support a =
    (raise_on_error ep).0 >> guard feature >> cuda_guard cuda_support a >> guard (contiguous a)

unfoldable pub recv_guard : Bool → Bool → Array → Result (Unit {0})
unfolding cuda_guard guard
recv_guard feature cuda_support a =
    guard (not a.readonly) >> guard feature >> cuda_guard cuda_support a >> guard (contiguous a)
