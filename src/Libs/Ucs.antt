-- ===== src/Libs/Ucs.antt =====
-- UCX's return codes, and `assert_ucs_status` of ucp/_libs/utils.pyx.
use ucx_py.Prelude.{ℕ, Bool, true, false}
use ucx_py.Exceptions.{Exn, Result, ok, err}

-- `ucs_status_t`: the codes that the code names, and the others by number.
pub data UcsStatus : Type 0 where
  ucs_ok ucs_inprogress err_busy err_canceled err_connection_reset : UcsStatus
  err_not_connected err_no_elem : UcsStatus
  err_other : ℕ → UcsStatus

abbrev pub is_ucs_ok : UcsStatus → Bool
is_ucs_ok UcsStatus.ucs_ok = true
is_ucs_ok _ = false

-- `ok true`: the operation completed inline; `ok false`: UCX still holds the user's resources.
unfoldable pub assert_ucs_status : UcsStatus → Result Bool
assert_ucs_status UcsStatus.ucs_ok = ok true
assert_ucs_status UcsStatus.ucs_inprogress = ok false
assert_ucs_status _ = err Exn.ucx_error
