-- ===== src/Libs/Request.antt =====
-- ucp/_libs/ucx_request.pyx: UCXRequest, a wrapper of a request handle of UCX, and `_handle_status`.
pub mod Stale
use ucx_py.Prelude.{
  ℕ, ◌+◌, ◌%◌, ◌^◌, Bool, true, false, not, Option, none, some, List, [], ◌∷◌, ◌==◌, if◌then◌else◌,
}
use ucx_py.Exceptions.{Exn, Result, ok, err}

-- The dict `info` of a request: is it finished, the key "received", which is there or not, and, once
-- the transfer function has written the keys of the callback, the key "expected_receive".
pub record Info : Type 0 where
  pub finished : Bool
  pub received : Option ℕ
  pub registered : Option ℕ

-- `ucx_py_request`, which UCX owns: `info` may be NULL, and `uid` is 0 in a fresh one.
pub record Request : Type 0 where
  pub info : Option Info
  pub uid : ℕ

abbrev pub fresh : Request
fresh = record { info = none; uid = 0 }

abbrev pending : Info
pending = record { finished = false; received = none; registered = none }

-- `_ucx_py_request_counter + 1`, an unsigned int.
abbrev pub count : ℕ → ℕ
count counter = (counter + 1) % 2 ^ 32

-- `UCXRequest(req)` on the counter: the wrapper's uid.
unfoldable pub wrap : ℕ → Request → Result ℕ × (ℕ × Request)
wrap counter r = elim r.info [
  | some info ↦ (ok r.uid, (counter, r))
  | none ↦
      if r.uid == 0
      then (
        ok (count counter),
        (count counter, record { info = some pending; uid = count counter }),
      )
      else (err Exn.assertion_error, (count counter, record r { info = some pending }))
]

-- `closed` of a wrapper that was not closed itself.
unfoldable pub closed : ℕ → Request → Bool
closed uid r = not (uid == r.uid)

-- `close`: the request goes back to UCX. A closed wrapper does nothing.
unfoldable pub close : ℕ → Request → Request
unfolding closed
close uid r = if closed uid r then r else fresh

-- `ucs_status_ptr_t`: done, an error, or a request.
pub data Returned : Type 0 where
  inline failed request : Returned

-- What comes back from the call: the callback's calls with their exceptions, and whether a request
-- is returned, or what is raised. The callback itself is taken not to raise.
finish : ℕ → ℕ → Info → List (Option Exn) × Result Bool
finish uid expected info = elim info.received [
  | none ↦ (none ∷ [], ok false)
  | some n ↦ if n == expected then (none ∷ [], ok false) else ([], err Exn.ucx_msg_truncated)
]

handle_request : ℕ → ℕ → Request → (List (Option Exn) × Result Bool) × Request
unfolding finish close
handle_request expected uid r =
    if closed uid r then (([], err Exn.assertion_error), r) else (elim r.info [
      | none ↦ (([], err Exn.type_error), r)
      | some info ↦ if info.finished then (finish uid expected info, close uid r) else (
        ([], ok true),
        record r { info = some (record info { registered = some expected }) },
      )
    ])

unfoldable pub handle_status :
    Returned → ℕ → ℕ → Request → (List (Option Exn) × Result Bool) × (ℕ × Request)
unfolding handle_request wrap
handle_status inline expected counter r = (([], ok false), (counter, r))
handle_status failed expected counter r = (([], err Exn.ucx_error), (counter, r))
handle_status request expected counter r =
    let (w, (counter', r')) = wrap counter r in
    elim w [
      | err x ↦ (([], err x), (counter', r'))
      | ok uid ↦ let (a, r'') = handle_request expected uid r' in (a, (counter', r''))
    ]
