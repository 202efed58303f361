-- ===== src/Libs/Request/Stale.antt =====
-- A wrapper does not take a request for another's.
use ucx_py.Prelude.{ℕ, ◌+◌, ◌≤◌, ◌<◌, ◌^◌, ◌≡◌, true, false, arith}
use ucx_py.Exceptions.{ok}
use ucx_py.Libs.Request.{fresh, wrap, closed, close}

-- As long as the counter has not come round, a wrapper with a uid from 1 up to the counter is
-- closed once its request is released, also when the memory is a new request, which has another
-- uid; and closing it does not touch that one.
pub wrap-closed :
    (counter uid : ℕ)
    → 1 ≤ uid
    → uid ≤ counter
    → counter + 1 < 2 ^ 32
    → let (w, (counter', r)) = wrap counter fresh in
      (closed uid fresh ≡ true)
      × (w ≡ ok counter')
      × (closed uid r ≡ true)
      × (closed counter' r ≡ false)
      × (close uid r ≡ r)
unfolding wrap closed close
wrap-closed counter uid pos old bound = ground arith
