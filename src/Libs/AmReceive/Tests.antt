-- ===== src/Libs/AmReceive/Tests.antt =====
-- Two receives, 1 and 2, wait on endpoint 7; a message by rendezvous and an eager one arrive there.
use ucx_py.Prelude.{◌≡◌, refl, true, none, [], ◌∷◌, arith}
use ucx_py.Libs.Request.{fresh}
use ucx_py.Libs.Ucs.{UcsStatus}
use ucx_py.Libs.Transfer.Answers.{early}
use ucx_py.Libs.ActiveMessage.{Tables, message, buffer}
use ucx_py.Libs.AmReceive.{Incoming, host, cuda, allocator}
use ucx_py.Libs.AmReceive.Once.{receive, due, settle, hand_over, eager, receive-due}

abbrev by_rndv : Incoming
by_rndv = record {
  asserted = true;
  ep = 7;
  is_rndv = true;
  header = cuda;
  allocates = true;
  buf = 30;
}

abbrev two_wait : Tables
two_wait = record { pool = []; wait = (7, 1 ∷ 2 ∷ []) ∷ [] }

allocated : allocator by_rndv ≡ cuda
unfolding allocator
allocated = refl

-- An eager message from CUDA memory is put into host memory.
allocated_eager : allocator (eager 7 cuda 31) ≡ host
unfolding allocator
allocated_eager = refl

receive-due_example :
    receive by_rndv 0 (early UcsStatus.err_canceled 0) (λ t. t) two_wait ≡ record {
      now = record { receive = 1; recv_obj = message (buffer 30); exception = none } ∷ [];
      later = [];
      tables = record { pool = (7, []) ∷ []; wait = (7, 2 ∷ []) ∷ [] };
      memory = fresh;
    }
unfolding due settle hand_over
receive-due_example =
    receive-due by_rndv 0 (early UcsStatus.err_canceled 0) (λ t. t) two_wait (omega arith)
