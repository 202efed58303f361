-- ===== src/Libs/Ucxio.antt =====
-- UCXIO of ucp/_libs/ucxio.pyx: a stream over remote memory, and the flush that it waits for.
pub mod Flush
pub mod RoundTrip
mod Tests
use ucx_py.Prelude.{
  ℕ, ◌+◌, Bool, true, false, Option, none, some, List, [], ◌∷◌, ◌++◌, length, if◌then◌else◌, ◌==◌,
  zero, suc, map,
}
use ucx_py.Prelude.Int.{ℤ, pos, neg, ◌+ℤ◌, ltz}
use ucx_py.Exceptions.{Exn, Result, ok, err, ◌>>=◌}
use ucx_py.Libs.Transfer.{send}
use ucx_py.Libs.Transfer.Answers.{Course, Trace, transfer}
use ucx_py.Libs.Rma.{RemoteStore, Local, to_word, ucp_put, ucp_get}

-- A call returns, raises, or polls the worker without end.
pub data Outcome (A : Type 0) : Type 0 where
  returned : A → Outcome A
  raised : Exn → Outcome A
  blocked : Outcome A

-- `cursor` is the attribute `pos`.
pub record UcxIo : Type 0 where
  pub cursor : ℤ
  pub remote_addr : ℕ
  pub length : ℕ

-- `blocking_handler` on the flag: a failed assertion is logged by the callback of the flush, and the
-- flag stays as it is.
abbrev pub blocking_handler : Bool → Option Exn → Bool
blocking_handler finished none = true
blocking_handler finished (some exception) = finished

handler_calls : Bool → List (Option Exn) → Bool
handler_calls finished [] = finished
handler_calls finished (x ∷ xs) = handler_calls (blocking_handler finished x) xs

-- The loop of `block_on_request` over what each call of `progress` brings: the call of the callback
-- or nothing. Does it end?
unfoldable pub block_on_request : Bool → List (Option (Option Exn)) → Bool
block_on_request true progress = true
block_on_request false [] = false
block_on_request false (none ∷ progress) = block_on_request false progress
block_on_request false (some exception ∷ progress) =
    block_on_request (blocking_handler false exception) progress

abbrev pub idle : ℕ → List (Option (Option Exn)) → List (Option (Option Exn))
idle zero later = later
idle (suc n) later = none ∷ idle n later

-- `flush` over the request that the endpoint's `flush` made; the worker is progressed `delay` times
-- before UCX answers.
unfoldable pub wait_for : ℕ → Trace → Outcome (Unit {0})
unfolding handler_calls
wait_for delay t = elim t.outcome [
  | err x ↦ raised x
  | ok false ↦ returned tt
  | ok true ↦
      (if block_on_request (handler_calls false t.before) (idle delay (map some t.later))
        then returned tt
        else blocked)
]

unfoldable pub flush : ℕ → ℕ → Course → Outcome (Unit {0})
flush counter delay course = wait_for delay (transfer send 0 counter course)

unfoldable pub seek : ℤ → ℕ → UcxIo → UcxIo
seek p whence io =
    let from = if whence == 1 then p +ℤ io.cursor else p in
    record io { cursor = if whence == 2 then pos io.length +ℤ neg from else from }

-- The size in `_do_rma`.
unfoldable pub clip : UcxIo → ℕ → ℤ
clip io nbytes =
    if ltz (pos io.length) (io.cursor +ℤ pos nbytes)
    then pos io.length +ℤ neg io.cursor
    else pos nbytes

-- What UCX does in the course of a call: the status of the put or get, and the flush.
pub record Answer : Type 0 where
  pub status : Result Bool
  pub counter : ℕ
  pub delay : ℕ
  pub course : Course

-- The end of `_do_rma`: the flush where the operation is not finished.
unfoldable pub await : {A : Type 0} → Bool → Outcome (Unit {0}) → A → Outcome A
await true flushed a = returned a
await false (returned _) a = returned a
await false (raised x) a = raised x
await false blocked a = blocked

-- `_do_rma` behind the operation: it has raised, or the cursor moves and the call waits.
unfoldable pub after_rma :
    {M : Type 0} → Answer → UcxIo → ℤ → Result Bool × M → Outcome ℤ × (UcxIo × M)
after_rma a io size (err x, m) = (raised x, (io, m))
after_rma a io size (ok finished, m) = (
  await finished (flush a.counter a.delay a.course) size,
  (record io { cursor = io.cursor +ℤ size }, m),
)

-- The conversions of the size and the address.
unfoldable pub rma_args : UcxIo → ℤ → Result (ℕ × ℕ)
rma_args io size =
    to_word size >>= λ n. to_word (pos io.remote_addr +ℤ io.cursor) >>= λ d. ok (n, d)

-- `_do_rma` over the operation, which is given the size and the address.
unfoldable pub do_rma :
    {M : Type 0} → (ℕ → ℕ → Result Bool × M) → M → Answer → ℕ → UcxIo → Outcome ℤ × (UcxIo × M)
do_rma op m a nbytes io = elim (rma_args io (clip io nbytes)) [
  | err x ↦ (raised x, (io, m))
  | ok (n, d) ↦ after_rma a io (clip io nbytes) (op n d)
]

module _ (S : RemoteStore) where
  unfoldable pub write : Answer → Local → UcxIo → S.State → Outcome ℤ × (UcxIo × S.State)
  write a l io s = do_rma (λ n d. ucp_put S a.status n d l s) s a (length l.buffer) io

  unfoldable pub readinto : Answer → Local → UcxIo → S.State → Outcome ℤ × (UcxIo × Local)
  readinto a l io s = do_rma (λ n d. ucp_get S a.status n d l s) l a (length l.buffer) io
