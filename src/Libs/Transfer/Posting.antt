-- ===== src/Libs/Transfer/Posting.antt =====
-- `tag_send_nb`, `tag_recv_nb`, `stream_send_nb` and `stream_recv_nb` as a whole: what each hands to
-- UCX, and the set of messages in flight that keeps its request.
use ucx_py.Prelude.{ℕ, ◌≡◌, Bool, not, ◌&&◌, ◌||◌, Option, none, some, arith, List, if◌then◌else◌}
use ucx_py.Exceptions.{Exn, Result, ok, err, ◌>>◌, is_ok}
use ucx_py.Libs.UcxEndpoint.{UcxEndpoint, raise_on_error}
use ucx_py.Libs.Arr.{Array, contiguous}
use ucx_py.Libs.Transfer.{Kind, send, tag_recv, stream_recv, guard, cuda_guard, callback}
use ucx_py.Libs.Ucs.{UcsStatus}
use ucx_py.Libs.Request.{Request}

-- The feature flags of a context that transfers ask for, and its CUDA support.
pub record Context : Type 0 where
  pub tag : Bool
  pub stream : Bool
  pub cuda_support : Bool

-- Whose `_inflight_msgs` the request is put into.
pub data Owner : Type 0 where
  of_endpoint of_worker : Owner

-- The arguments of UCX's function and of `_handle_status`.
pub record Posted : Type 0 where
  pub kind : Kind
  pub nbytes : ℕ
  pub tag : Option ℕ
  pub inflight : Owner

unfoldable pub tag_send_nb : UcxEndpoint → Context → Array → ℕ → ℕ → Result Posted
tag_send_nb ep c buffer nbytes tag =
    (raise_on_error ep).0
    >> guard c.tag
    >> cuda_guard c.cuda_support buffer
    >> guard (contiguous buffer)
    >> ok (record { kind = send; nbytes = nbytes; tag = some tag; inflight = of_endpoint })

unfoldable pub stream_send_nb : UcxEndpoint → Context → Array → ℕ → Result Posted
stream_send_nb ep c buffer nbytes =
    (raise_on_error ep).0
    >> guard c.stream
    >> cuda_guard c.cuda_support buffer
    >> guard (contiguous buffer)
    >> ok (record { kind = send; nbytes = nbytes; tag = none; inflight = of_endpoint })

abbrev pub support_of : Context → Option Context → Bool
support_of worker none = worker.cuda_support
support_of worker (some c) = c.cuda_support

abbrev pub owner_of : Option Context → Owner
owner_of none = of_worker
owner_of (some c) = of_endpoint

-- `ep` is None, or an endpoint by the context of its worker.
unfoldable pub tag_recv_nb : Context → Array → ℕ → ℕ → Option Context → Result Posted
tag_recv_nb worker buffer nbytes tag ep =
    guard (not buffer.readonly)
    >> guard worker.tag
    >> cuda_guard (support_of worker ep) buffer
    >> guard (contiguous buffer)
    >> ok (record { kind = tag_recv; nbytes = nbytes; tag = some tag; inflight = owner_of ep })

unfoldable pub stream_recv_nb : Context → Array → ℕ → Result Posted
stream_recv_nb c buffer nbytes =
    guard (not buffer.readonly)
    >> guard c.stream
    >> cuda_guard c.cuda_support buffer
    >> guard (contiguous buffer)
    >> ok (record { kind = stream_recv; nbytes = nbytes; tag = none; inflight = of_endpoint })

-- Memory that the context can transfer from or to.
abbrev pub is_fit : Bool → Array → Bool
is_fit cuda_support a = (not a.cuda || cuda_support) && contiguous a

-- A send comes to UCX exactly when the endpoint is alive, the feature is there and the memory
-- fits; a receive when the buffer can be written, the feature is there and the memory fits, by the
-- context of the endpoint where one is given, and raises ValueError otherwise.
pub posts_exactly :
    (ep : UcxEndpoint) (c : Context) (a : Array) (nbytes tag : ℕ) (of_ep : Option Context)
    → let alive = is_ok (raise_on_error ep).0 in
      (is_ok (tag_send_nb ep c a nbytes tag) ≡ (alive && c.tag && is_fit c.cuda_support a))
      × (is_ok (stream_send_nb ep c a nbytes) ≡ (alive && c.stream && is_fit c.cuda_support a))
      × (tag_recv_nb c a nbytes tag of_ep ≡ (
          if not a.readonly && c.tag && is_fit (support_of c of_ep) a
          then ok (record {
            kind = tag_recv;
            nbytes = nbytes;
            tag = some tag;
            inflight = owner_of of_ep;
          })
          else err Exn.value_error))
      × (stream_recv_nb c a nbytes ≡ (
          if not a.readonly && c.stream && is_fit c.cuda_support a
          then ok
              (record { kind = stream_recv; nbytes = nbytes; tag = none; inflight = of_endpoint })
          else err Exn.value_error))
unfolding tag_send_nb stream_send_nb tag_recv_nb stream_recv_nb guard cuda_guard
posts_exactly ep c a nbytes tag of_ep = (ground arith, ground arith, ground arith, ground arith)

-- `_tag_recv_callback`
unfoldable pub tag_recv_callback : UcsStatus → ℕ → ℕ → Request → List (Option Exn) × (ℕ × Request)
tag_recv_callback = callback tag_recv

-- `_stream_recv_callback`
unfoldable pub stream_recv_callback :
    UcsStatus → ℕ → ℕ → Request → List (Option Exn) × (ℕ × Request)
stream_recv_callback = callback stream_recv

-- The callback that is handed to UCX.
unfoldable pub callback_of :
    Posted → UcsStatus → ℕ → ℕ → Request → List (Option Exn) × (ℕ × Request)
unfolding tag_recv_callback stream_recv_callback
callback_of p = elim p.kind [
  | send ↦ callback send
  | tag_recv ↦ tag_recv_callback
  | stream_recv ↦ stream_recv_callback
]
