-- ===== src/Core/Objects.antt =====
-- `send_obj` and `recv_obj` of class Endpoint of ucp/core.py, with the bytes of the messages; the
-- outcomes of the awaited futures are arguments, and no other coroutine changes the endpoint
-- in between.
pub mod Deliver
mod Tests
use ucx_py.Prelude.{ℕ, Bool, false, Option, none, some, List, [], ◌∷◌, ◌==◌, if◌then◌else◌, length}
use ucx_py.Exceptions.{Exn, Result, ok, err}
use ucx_py.Action.{Action, pure, lift, ◌>>=◌, ◌>>◌}
use ucx_py.Hash.{Digest}
use ucx_py.Struct.{Bytes, pack, unpack}
use ucx_py.Core.Endpoint.{Endpoint, UserTag, send_start, send_end, recv_start, recv_end}

-- A message with its tag.
abbrev pub Message : Type 0
Message = ℕ × Bytes

-- `send` of these bytes, to its end.
unfoldable pub send_bytes :
    Digest → Option UserTag → Result (Unit {0}) → Bytes → Action Endpoint Message
send_bytes sha1 tag outcome bytes = do
  (n, t) ← send_start sha1 (ok (length bytes)) tag false
  send_end outcome
  pure (t, bytes)

-- `obj` is what `Array(obj)` gives. Its size goes out first, as an array of one "Q".
unfoldable pub send_obj :
    Digest
    → Option UserTag
    → Result (Unit {0})
    → Result (Unit {0})
    → Result Bytes
    → Action Endpoint (Message × Message)
unfolding send_bytes
send_obj sha1 tag outcome outcome' obj = do
  bytes ← lift obj
  size ← lift (pack (length bytes ∷ []))
  first ← send_bytes sha1 tag outcome size
  second ← send_bytes sha1 tag outcome' bytes
  pure (first, second)

-- How a receive of so many bytes ends that meets a message.
abbrev pub arrived : ℕ → Bytes → Result (Unit {0})
arrived size bytes = if length bytes == size then ok tt else err Exn.ucx_msg_truncated

-- `recv` into a buffer of this size: the tag, and the bytes of the message that comes on it.
unfoldable pub recv_bytes :
    Digest → (ℕ → Bool) → Option UserTag → ℕ → (ℕ → Bytes) → Action Endpoint Bytes
recv_bytes sha1 tag_probe tag size comes = do
  (n, t) ← recv_start sha1 tag_probe (ok size) tag false
  recv_end (arrived size (comes t))
  pure (comes t)

first_word : List ℕ → Result ℕ
first_word (n ∷ ns) = ok n
first_word [] = err Exn.index_error

-- `comes` and `comes'` are the messages that come for the first and the second receive by their
-- tags. The allocator returns a buffer of the size that it is given.
unfoldable pub recv_obj :
    Digest → (ℕ → Bool) → Option UserTag → (ℕ → Bytes) → (ℕ → Bytes) → Action Endpoint Bytes
unfolding recv_bytes first_word
recv_obj sha1 tag_probe tag comes comes' = do
  bytes ← recv_bytes sha1 tag_probe tag 8 comes
  words ← lift (unpack 1 bytes)
  nbytes ← lift (first_word words)
  recv_bytes sha1 tag_probe tag nbytes comes'
