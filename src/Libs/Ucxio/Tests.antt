-- ===== src/Libs/Ucxio/Tests.antt =====
-- A stream over four bytes at address 100.
use ucx_py.Prelude.{ℕ, ◌≡◌, inr, false, [], ◌∷◌, arith}
use ucx_py.Prelude.Int.{pos}
use ucx_py.Exceptions.{ok}
use ucx_py.Libs.Transfer.Answers.{at_once, late}
use ucx_py.Libs.Rma.{Local}
use ucx_py.Libs.Rma.Memory.{byte_store, byte_store-IsLawful}
use ucx_py.Libs.Ucs.{UcsStatus}
use ucx_py.Libs.Transfer.{verdict}
use ucx_py.Libs.Ucxio.Flush.{ending, flush-ending}
use ucx_py.Libs.Ucxio.{blocked, flush, UcxIo, Answer, write}
use ucx_py.Libs.Ucxio.RoundTrip.{at, write-window}

abbrev stream : UcxIo
stream = record { cursor = pos 0; remote_addr = 100; length = 4 }

abbrev three : Local
three = record { buffer = 1 ∷ 2 ∷ 3 ∷ []; beyond = [] }

abbrev zeros : Local
zeros = record { buffer = 0 ∷ 0 ∷ 0 ∷ []; beyond = [] }

abbrev blank : ℕ → ℕ
blank a = 0

-- The put is not finished when it returns, and the flush is.
abbrev flushed : Answer
flushed = record { status = ok false; counter = 0; delay = 0; course = at_once }

-- Three bytes from position 2, of which two fit, leave the byte behind the region as it was.
write-window_example :
    byte_store.get (write byte_store flushed three (at 2 stream) blank).1.1 104 1
    ≡ byte_store.get blank 104 1
write-window_example =
    write-window byte_store byte_store-IsLawful flushed three 2 stream blank 104 1 (omega arith)
      (omega arith) (inr (omega arith))

flush-ending_example : flush 0 5 (late UcsStatus.err_canceled 0) ≡ blocked
unfolding ending verdict
flush-ending_example = flush-ending 0 5 (late UcsStatus.err_canceled 0) (omega arith)
