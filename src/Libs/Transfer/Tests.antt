-- ===== src/Libs/Transfer/Tests.antt =====
-- Transfers, and the theorems about them at concrete inputs.
use ucx_py.Prelude.{◌≡◌, arith}
use ucx_py.Exceptions.{Exn, ok, err}
use ucx_py.Libs.Ucs.{UcsStatus}
use ucx_py.Libs.Transfer.{false, tag_recv, verdict}
use ucx_py.Libs.Transfer.Answers.{late, transfer, settled, future, future-transfer}
use ucx_py.Comm.{finished}

future-transfer_example :
    future false (transfer tag_recv 8 0 (late UcsStatus.ucs_ok 9))
    ≡ ok (finished (err Exn.ucx_msg_truncated))
unfolding settled verdict
future-transfer_example = future-transfer tag_recv 8 0 (late UcsStatus.ucs_ok 9) false (omega arith)
