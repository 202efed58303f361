-- ===== src/Comm/Tests.antt =====
-- A receive of active messages behind another one on the same endpoint.
use ucx_py.Prelude.{◌≡◌, refl, true, false, [], ◌∷◌}
use ucx_py.Exceptions.{Exn, ok, err}
use ucx_py.Comm.{pending, finished}
use ucx_py.Comm.Calls.{Setting, am_receive, am_future}
use ucx_py.Comm.Canceled.{am_receive-cancel}
use ucx_py.Libs.ActiveMessage.{Tables, cancel_am_recv_single}

abbrev setting : Setting
setting = record {
  tag_feature = true;
  stream_feature = true;
  am_feature = true;
  cuda_support = false;
  counter = 0;
}

abbrev one_waits : Tables
one_waits = record { pool = []; wait = (7, 1 ∷ []) ∷ [] }

abbrev two_wait : Tables
two_wait = record { pool = []; wait = (7, 1 ∷ 2 ∷ []) ∷ [] }

am_receive-cancel_example :
    (am_receive setting 7 2 one_waits ≡ ok (pending, two_wait))
    × (am_future 2 (cancel_am_recv_single 7 two_wait).0 pending ≡ finished (err Exn.ucx_canceled))
am_receive-cancel_example = am_receive-cancel setting 7 2 one_waits refl refl
