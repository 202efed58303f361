-- ===== src/Libs/ActiveMessage/Tests.antt =====
-- Messages and receives, and the theorems about them at concrete inputs.
use ucx_py.Prelude.{◌≡◌, refl, some, [], ◌∷◌, map}
use ucx_py.Exceptions.{Exn}
use ucx_py.Libs.ActiveMessage.{buffer, failure, Tables}
use ucx_py.Libs.ActiveMessage.Order.{
  pushes, receives, run, pair, messages, requests, run_in_order, zip,
}

abbrev empty : Tables
empty = record { pool = []; wait = [] }

run_in_order_example :
    map pair
      (run 3
        (receives 1 ∷ pushes (buffer 8) ∷ pushes (failure Exn.ucx_canceled) ∷ receives 2 ∷ [])
        empty).0
    ≡ (1, some (buffer 8)) ∷ (2, some (failure Exn.ucx_canceled)) ∷ []
unfolding zip messages requests
run_in_order_example =
    run_in_order 3
      (receives 1 ∷ pushes (buffer 8) ∷ pushes (failure Exn.ucx_canceled) ∷ receives 2 ∷ []) empty
      refl refl
