-- ===== src/Libs/AmReceive.antt =====
-- The arrival of an active message, ucp/_libs/ucx_worker_cb.pyx: `_am_recv_callback` and, for a message
-- by rendezvous, `_am_recv_completed_callback`.
pub mod Once
mod Tests
use ucx_py.Prelude.{
  ℕ, Bool, true, false, ◌&&◌, Option, none, some, List, [], ◌∷◌, ◌++◌, map, if◌then◌else◌,
}
use ucx_py.Exceptions.{Exn, ok, err}
use ucx_py.Libs.Ucs.{UcsStatus}
use ucx_py.Libs.Request.{
  Info, Request, fresh, wrap, closed, close, Returned, inline, failed, request,
}
use ucx_py.Libs.Transfer.{send, verdict}
use ucx_py.Libs.Transfer.Answers.{Course, at_once, refused, early, late}
use ucx_py.Libs.ActiveMessage.{
  Message, buffer, failure, Object, message, Delivery, Tables, pool_entry, push_result,
}

-- The header: `UCS_MEMORY_TYPE_HOST`, `UCS_MEMORY_TYPE_CUDA`, or another type.
pub data Header : Type 0 where
  host cuda unsupported : Header

-- A message: what the assertions of `_am_recv_callback` test, the endpoint that it came with, the
-- protocol, the header, whether the allocator that is called makes a buffer, and the buffer, numbered.
-- An allocator that is None or raises makes none.
pub record Incoming : Type 0 where
  pub asserted : Bool
  pub ep : ℕ
  pub is_rndv : Bool
  pub header : Header
  pub allocates : Bool
  pub buf : ℕ

-- `worker._am_host_allocator` or `worker._am_allocates`
unfoldable pub allocator : Incoming → Header
allocator m = if m.is_rndv then (elim m.header [ cuda ↦ cuda | _ ↦ host ]) else host

-- `_push_result` with a buffer and an exception: the pool keeps the exception, a receive that waits is
-- given both.
unfoldable pub push_both : ℕ → ℕ → Exn → Tables → List Delivery × Tables
push_both ep b x t =
    let (ds, t') = push_result ep (failure x) t in
    (map (λ (d : Delivery). record d { recv_obj = message (buffer b) }) ds, t')

-- `_push_result(buf, exception)` in the completed callback.
unfoldable pub push_completed : ℕ → ℕ → Option Exn → Tables → List Delivery × Tables
push_completed ep b none t = push_result ep (buffer b) t
push_completed ep b (some x) t = push_both ep b x t

-- The request of a rendezvous: completed already, or registered.
arrived_request : Incoming → ℕ → Request → Tables → (List Delivery × Tables) × Request
arrived_request m uid r t = if closed uid r then (([], t), r) else (elim r.info [
  | none ↦ (([], t), r)
  | some info ↦
      (if info.finished
        then (push_result m.ep (buffer m.buf) t, close uid r)
        else (([], t), record r { info = some (record info { registered = some 0 }) }))
])

-- Behind `ucp_am_recv_data_nbx`.
unfoldable pub arrived_rndv :
    Incoming → Returned → ℕ → Request → Tables → (List Delivery × Tables) × (ℕ × Request)
unfolding arrived_request
arrived_rndv m inline counter r t = (push_result m.ep (buffer m.buf) t, (counter, r))
arrived_rndv m failed counter r t = (push_result m.ep (failure Exn.ucx_error) t, (counter, r))
arrived_rndv m request counter r t =
    let (w, (counter', r')) = wrap counter r in
    elim w [
      | err x ↦ (([], t), (counter', r'))
      | ok uid ↦ let (a, r'') = arrived_request m uid r' t in (a, (counter', r''))
    ]

-- `_am_recv_callback`, given how `ucp_am_recv_data_nbx` returns. It is a C callback: what it raises, by
-- an assertion or by the allocator, goes no further.
unfoldable pub am_recv_callback :
    Incoming → Returned → ℕ → Request → Tables → (List Delivery × Tables) × (ℕ × Request)
am_recv_callback m ret counter r t =
    let entered = record t { pool = pool_entry m.ep t.pool } in
    if m.asserted
    then (if m.allocates
        then (if m.is_rndv
            then elim m.header [
              | unsupported ↦ (push_result m.ep (failure Exn.ucx_error) entered, (counter, r))
              | _ ↦ arrived_rndv m ret counter r entered
            ]
            else (push_result m.ep (buffer m.buf) entered, (counter, r)))
        else (([], entered), (counter, r)))
    else (([], t), (counter, r))

completed_request :
    Incoming → UcsStatus → ℕ → Request → Info → Tables → (List Delivery × Tables) × Request
completed_request m status uid r info t = elim info.registered [
  | none ↦ (([], t), record r { info = some (record info { finished = true }) })
  | some expected ↦ (push_completed m.ep m.buf (verdict send status 0 0) t, close uid r)
]

-- `_am_recv_completed_callback`; the exceptions by the status are those of `_send_callback`.
unfoldable pub am_recv_completed_callback :
    Incoming → UcsStatus → ℕ → Request → Tables → (List Delivery × Tables) × (ℕ × Request)
unfolding completed_request
am_recv_completed_callback m status counter r t =
    let (w, (counter', r')) = wrap counter r in
    elim w [
      | err x ↦ (([], t), (counter', r'))
      | ok uid ↦ if closed uid r' then (([], t), (counter', r')) else (elim r'.info [
        | none ↦ (([], t), (counter', r'))
        | some info ↦
            (let (a, r'') = completed_request m status uid r' info t in (a, (counter', r'')))
      ])
    ]
