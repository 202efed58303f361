-- ===== src/Libs/Rma.antt =====
-- Remote memory, ucp/_libs/ucx_rma.pyx: RemoteMemory's tests, and puts and gets over a memory that UCX
-- reaches.
pub mod Memory
pub mod Bounds
pub mod Posting
mod Tests
use ucx_py.Prelude.{
  ℕ, ◌+◌, Bool, true, false, List, [], ◌∷◌, ◌++◌, length, take, drop, if◌then◌else◌, ltb,
}
use ucx_py.Prelude.Int.{ℤ, pos, negsuc, is_zero, ◌+ℤ◌, ltz}
use ucx_py.Exceptions.{Exn, Result, ok, err, ◌>>=◌}
use ucx_py.Libs.Arr.{word_mod}
use ucx_py.Libs.Transfer.{send}
use ucx_py.Libs.Transfer.Answers.{Course, Trace, transfer}

-- A memory of bytes that UCX reads and writes for the caller.
pub record RemoteStore : Type 1 where
  pub State : Type 0
  pub get : State → ℕ → ℕ → List ℕ
  pub put : State → ℕ → List ℕ → State

-- RemoteMemory, without the key.
pub record RemoteMemory : Type 0 where
  pub base : ℕ
  pub length : ℕ

-- The caller's buffer, and what lies behind it in the caller's memory.
pub record Local : Type 0 where
  pub buffer : List ℕ
  pub beyond : List ℕ

-- Cython's conversion of a Python int to `size_t` or `uint64_t`.
unfoldable pub to_word : ℤ → Result ℕ
to_word (pos n) = if ltb n word_mod then ok n else err Exn.overflow_error
to_word (negsuc n) = err Exn.overflow_error

-- What the four methods do before UCX is called: the number of bytes and the remote address.
unfoldable pub rma_range : RemoteMemory → ℕ → ℤ → ℤ → Result (ℕ × ℕ)
rma_range r nbytes size offset =
    let dest = pos r.base +ℤ offset in
    let n = if is_zero size then pos nbytes else size in
    if ltz (pos r.length) (n +ℤ offset)
    then err Exn.index_error
    else (to_word n >>= λ k. to_word dest >>= λ d. ok (k, d))

-- `put_nb` and `get_nb`: the range, and the transfer.
unfoldable pub rma_nb : ℕ → Course → RemoteMemory → ℕ → ℤ → ℤ → Result ((ℕ × ℕ) × Trace)
rma_nb counter course r nbytes size offset =
    rma_range r nbytes size offset >>= λ range. ok (range, transfer send range.0 counter course)

module _ (S : RemoteStore) where
  -- The functions `put_nbi` and `get_nbi`, with the status that `ucp_put_nbi` and `ucp_get_nbi` return
  -- and the bytes as they are once UCX has completed an operation that it has accepted; that may be
  -- later than the return, whatever the status, and no part of this says when.
  unfoldable pub ucp_put : Result Bool → ℕ → ℕ → Local → S.State → Result Bool × S.State
  ucp_put (err x) nbytes addr l s = (err x, s)
  ucp_put (ok done) nbytes addr l s = (ok done, S.put s addr (take nbytes (l.buffer ++ l.beyond)))

  unfoldable pub ucp_get : Result Bool → ℕ → ℕ → Local → S.State → Result Bool × Local
  ucp_get (err x) nbytes addr l s = (err x, l)
  ucp_get (ok done) nbytes addr l s =
      let bytes = S.get s addr nbytes ++ drop nbytes (l.buffer ++ l.beyond) in
      (
        ok done,
        record { buffer = take (length l.buffer) bytes; beyond = drop (length l.buffer) bytes },
      )

  -- The methods `put_nbi` and `get_nbi`.
  unfoldable pub put_nbi :
      Result Bool → RemoteMemory → Local → ℤ → ℤ → S.State → Result Bool × S.State
  put_nbi status r l size offset s = elim (rma_range r (length l.buffer) size offset) [
    | err x ↦ (err x, s)
    | ok (n, d) ↦ ucp_put status n d l s
  ]

  unfoldable pub get_nbi :
      Result Bool → RemoteMemory → Local → ℤ → ℤ → S.State → Result Bool × Local
  get_nbi status r l size offset s = elim (rma_range r (length l.buffer) size offset) [
    | err x ↦ (err x, l)
    | ok (n, d) ↦ ucp_get status n d l s
  ]
