-- ===== src/Core/CtrlMsg.antt =====
-- The wire format of class CtrlMsg of ucp/core.py: an opcode and a count, as "QQ".
use ucx_py.Prelude.{ℕ, ◌≡◌, List, [], ◌∷◌}
use ucx_py.Exceptions.{Exn, Result, ok, err, ◌>>=◌}
use ucx_py.Struct.{Bytes, IsU64, pack, unpack, packed, pack-packed, unpack-packed}

unfoldable pub serialize : ℕ → ℕ → Result Bytes
serialize opcode close_after_n_recv = pack (opcode ∷ close_after_n_recv ∷ [])

pair_of : List ℕ → Result (ℕ × ℕ)
pair_of (a ∷ b ∷ []) = ok (a, b)
pair_of _ = err Exn.value_error

-- The two numbers that the caller takes apart.
unfoldable pub deserialize : Bytes → Result (ℕ × ℕ)
unfolding pair_of
deserialize serialized_bytes = unpack 2 serialized_bytes >>= pair_of

-- In range, a control message is serialized to these bytes.
pub serialize-packed :
    (opcode n : ℕ) → IsU64 opcode → IsU64 n → serialize opcode n ≡ ok (packed (opcode ∷ n ∷ []))
unfolding serialize
serialize-packed opcode n h k = pack-packed (opcode ∷ n ∷ []) (h, (k, tt))

pub deserialize-packed :
    (opcode n : ℕ)
    → IsU64 opcode
    → IsU64 n
    → deserialize (packed (opcode ∷ n ∷ [])) ≡ ok (opcode, n)
unfolding deserialize
deserialize-packed opcode n h k = rw (unpack-packed (opcode ∷ n ∷ []) (h, (k, tt)))

-- A control message of two unsigned 64-bit numbers is read back as it was written.
pub serialize-deserialize :
    (opcode n : ℕ) → IsU64 opcode → IsU64 n → (serialize opcode n >>= deserialize) ≡ ok (opcode, n)
serialize-deserialize opcode n h k =
    rw (serialize-packed opcode n h k) (deserialize-packed opcode n h k)
