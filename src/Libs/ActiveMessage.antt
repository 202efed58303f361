-- ===== src/Libs/ActiveMessage.antt =====
-- Active messages: `am_recv_nb` of ucp/_libs/transfer_am.pyx, `_push_result` of
-- `_am_recv_callback` and `_cancel_am_recv_single` of ucx_endpoint.pyx, on the two tables of the
-- worker: `_am_recv_pool` of messages that wait for a receive, and `_am_recv_wait` of receives that
-- wait for a message.
pub mod Order
mod Tests
use ucx_py.Prelude.{
  arith, lookup-insert, ◌≡◌, ℕ, Bool, true, false, Option, none, some, List, [], ◌∷◌, ◌++◌, map,
  Dict, lookup, insert, contains, if◌then◌else◌, length, ◌==◌,
}
use ucx_py.Exceptions.{Exn}

-- What comes of a message: a buffer, numbered, or the exception of the receiving.
pub data Message : Type 0 where
  buffer : ℕ → Message
  failure : Exn → Message

-- The callback of a receive, numbered, is called with an object and an exception.
pub data Object : Type 0 where
  nothing : Object
  message : Message → Object

pub record Delivery : Type 0 where
  pub receive : ℕ
  pub recv_obj : Object
  pub exception : Option Exn

pub record Tables : Type 0 where
  pub pool : Dict (List Message)
  pub wait : Dict (List ℕ)

-- `d[k]`, an empty list where the key is missing.
abbrev pub queue : {A : Type 0} → ℕ → Dict (List A) → List A
queue k d = elim (lookup k d) [ none ↦ [] | some q ↦ q ]

pub queue-insert : (ep : ℕ) (q : List ℕ) (d : Dict (List ℕ)) → queue ep (insert ep q d) ≡ q
queue-insert ep q d = rw (queue, lookup-insert ep ep q d) (ground arith)

-- What `_push_result` calls a waiting receive with: the buffer, or None and the exception.
abbrev pub pushed : ℕ → Message → Delivery
pushed r (buffer b) = record { receive = r; recv_obj = message (buffer b); exception = none }
pushed r (failure x) = record { receive = r; recv_obj = nothing; exception = some x }

-- `_am_recv_callback` first makes the endpoint's entry of the pool; then `_push_result`.
abbrev pub pool_entry : ℕ → Dict (List Message) → Dict (List Message)
pool_entry ep d = if contains ep d then d else insert ep [] d

unfoldable pub push_result : ℕ → Message → Tables → List Delivery × Tables
push_result ep m t =
    let pool = pool_entry ep t.pool in
    elim (queue ep t.wait) [
      | [] ↦ ([], record t { pool = insert ep (queue ep pool ++ m ∷ []) pool })
      | r ∷ rest ↦ (pushed r m ∷ [], record { pool = pool; wait = insert ep rest t.wait })
    ]

-- What `am_recv_nb` calls its callback with for a message of the pool. Its test for an exception,
-- `isinstance(type(recv_obj), (Exception, ))`, asks whether the class is an instance of Exception,
-- which it never is.
abbrev pub popped : ℕ → Message → Delivery
popped r m = record { receive = r; recv_obj = message m; exception = none }

unfoldable pub am_recv_nb : ℕ → ℕ → Tables → List Delivery × Tables
am_recv_nb ep r t = elim (queue ep t.pool) [
  | m ∷ rest ↦ (popped r m ∷ [], record t { pool = insert ep rest t.pool })
  | [] ↦ ([], record t { wait = insert ep (queue ep t.wait ++ r ∷ []) t.wait })
]

abbrev pub cancel_receive : ℕ → Delivery
cancel_receive r = record { receive = r; recv_obj = nothing; exception = some Exn.ucx_canceled }

-- `del d[k]`
unfoldable pub del : {A : Type 0} → ℕ → Dict A → Dict A
del k [] = []
del k ((j, v) ∷ d) = if k == j then d else (j, v) ∷ del k d

-- `_cancel_am_recv_single`: every waiting receive of the endpoint is cancelled, and counted.
unfoldable pub cancel_am_recv_single : ℕ → Tables → List Delivery × ℕ × Tables
unfolding del
cancel_am_recv_single ep t = (
  map cancel_receive (queue ep t.wait),
  length (queue ep t.wait),
  record t { wait = del ep t.wait },
)

-- `UCXEndpoint.am_probe`
unfoldable pub am_probe : ℕ → Tables → Bool
am_probe ep t = contains ep t.pool
