-- ===== src/Libs/UcxAddress.antt =====
-- The address of a worker, ucp/_libs/ucx_address.pyx: where its memory comes from and how the finalizer
-- gives it back.
mod Tests
use ucx_py.Exceptions.{Exn, Result, ok, err}
use ucx_py.Libs.Ucs.{UcsStatus, assert_ucs_status}
use ucx_py.Prelude.{
  ℕ, ◌≡◌, ◌≢◌, refl, Bool, true, false, not, ◌&&◌, List, [], ◌∷◌, ◌==◌, if◌then◌else◌, ◌+◌, suc,
  arith,
}

-- Whose a block of memory is.
pub data Owner : Type 0 where
  ucx libc : Owner

-- Memory blocks, numbered from 0 as they are allocated, with their bytes; what was given back, and
-- through whom.
pub record Heap : Type 0 where
  pub next : ℕ
  pub owner : ℕ → Owner
  pub content : ℕ → List ℕ
  pub returned : List (Owner × ℕ)

unfoldable pub allocate : Owner → List ℕ → Heap → ℕ × Heap
allocate o bytes h = (
  h.next,
  record h {
    next = suc h.next;
    owner = λ a. if a == h.next then o else h.owner a;
    content = λ a. if a == h.next then bytes else h.content a;
  },
)

-- UCXAddress: `_address`, and is there a worker for the finalizer?
pub record UcxAddress : Type 0 where
  pub address : ℕ
  pub of_worker : Bool

-- `__cinit__`: a copy in memory of malloc.
unfoldable pub cinit : ℕ → Bool → Heap → UcxAddress × Heap
cinit a worker h =
    let (copy, h') = allocate libc (h.content a) h in
    (record { address = copy; of_worker = worker }, h')

-- The copy of the address that `ucp_worker_get_address` allocates, with these bytes.
unfoldable pub worker_address : List ℕ → Heap → UcxAddress × Heap
worker_address bytes h = let (a, h') = allocate ucx bytes h in cinit a true h'

-- `from_worker`, with the status of `ucp_worker_get_address`.
unfoldable pub from_worker : UcsStatus → List ℕ → Heap → Result UcxAddress × Heap
from_worker status bytes h = elim (assert_ucs_status status) [
  | err x ↦ (err x, h)
  | ok _ ↦ let (a, h') = worker_address bytes h in (ok a, h')
]

-- `from_buffer`: the buffer is the caller's, C-contiguous or not.
unfoldable pub from_buffer : Bool → ℕ → Heap → Result UcxAddress × Heap
from_buffer c_contiguous buffer h =
    if c_contiguous
    then (let (a, h') = cinit buffer false h in (ok a, h'))
    else (err Exn.assertion_error, h)

-- `_ucx_address_finalizer`: `ucp_worker_release_address`, or `free`.
unfoldable pub finalizer : UcxAddress → Heap → Heap
finalizer a h = record h {
  returned = ((if a.of_worker then ucx else libc), a.address) ∷ h.returned;
}

-- Where UCX gives the address of the worker, `from_worker` makes one that holds its bytes, in
-- memory of malloc; its finalizer hands that memory to UCX to release, and the memory that UCX
-- allocated for the address is another, which is not given back.
pub from_worker-finalizer :
    (bytes : List ℕ) (h : Heap)
    → let (a, h') = worker_address bytes h in
      let end = finalizer a h' in
      (from_worker UcsStatus.ucs_ok bytes h ≡ (ok a, h'))
      × (end.content a.address ≡ bytes)
      × (end.returned ≡ (ucx, a.address) ∷ h.returned)
      × (end.owner a.address ≡ libc)
      × (end.owner h.next ≡ ucx)
      × (a.address ≢ h.next)
unfolding from_worker worker_address finalizer cinit allocate assert_ucs_status
from_worker-finalizer bytes h = ground arith

-- An address from a buffer holds its bytes in memory of malloc, which the finalizer frees; nothing else
-- was allocated.
pub from_buffer-finalizer :
    (buffer : ℕ) (h : Heap)
    → let (a, h') = cinit buffer false h in
      let end = finalizer a h' in
      (from_buffer true buffer h ≡ (ok a, h'))
      × (end.content a.address ≡ h.content buffer)
      × (end.returned ≡ (libc, a.address) ∷ h.returned)
      × (end.owner a.address ≡ libc)
      × (end.next ≡ suc a.address)
unfolding from_buffer finalizer cinit allocate
from_buffer-finalizer buffer h = ground arith
