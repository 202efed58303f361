-- ===== src/Struct.antt =====
-- `struct.pack` and `struct.unpack` of Python's standard library at the formats "QQ" and "QQQ",
-- for which ucp/core.py calls them: unsigned 64-bit numbers, little-endian as on x86-64.
use ucx_py.Prelude.{
  ℕ, zero, suc, ◌^◌, ◌<◌, ◌*◌, ◌≡◌, refl, List, [], ◌∷◌, ◌++◌, true, arith, ltb, leb, if◌then◌else◌,
  length, take, drop, All, lt→ltb, length-append,
}
use ucx_py.Prelude.Bytes.{to_bytes, from_bytes, length-to_bytes, from_bytes-to_bytes}
use ucx_py.Exceptions.{Exn, Result, ok, err, ◌>>=◌}

abbrev pub Bytes : Type 0
Bytes = List ℕ

abbrev pub IsU64 : ℕ → Type 0
IsU64 n = n < 2 ^ 64

-- `struct.pack(fmt, *qs)`, one "Q" of fmt for each number.
unfoldable pub pack : List ℕ → Result Bytes
pack [] = ok []
pack (q ∷ qs) =
    let rest = pack qs in
    if ltb q (2 ^ 64) then (rest >>= λ bs. ok (to_bytes 8 q ++ bs)) else err Exn.struct_error

-- `struct.unpack(fmt, bs)` with k letters "Q" in fmt.
unfoldable pub unpack : ℕ → Bytes → Result (List ℕ)
unpack zero [] = ok []
unpack zero (b ∷ bs) = err Exn.struct_error
unpack (suc k) bs =
    let rest = unpack k (drop 8 bs) in
    if leb 8 (length bs)
    then (rest >>= λ qs. ok (from_bytes (take 8 bs) ∷ qs))
    else err Exn.struct_error

-- The bytes of numbers that are in range.
unfoldable pub packed : List ℕ → Bytes
packed [] = []
packed (q ∷ qs) = to_bytes 8 q ++ packed qs

pub pack-packed : (qs : List ℕ) → All IsU64 qs → pack qs ≡ ok (packed qs)
unfolding pack packed
pack-packed [] h = refl
pack-packed (q ∷ qs) h = rw (lt→ltb q (2 ^ 64) h.0, pack-packed qs h.1)

pub length-packed : (qs : List ℕ) → length (packed qs) ≡ 8 * length qs
unfolding packed
length-packed [] = omega arith
length-packed (q ∷ qs) =
    omega (arith, length-append (to_bytes 8 q) (packed qs), length-to_bytes 8 q, length-packed qs)

take_word : (q : ℕ) (bs : Bytes) → take 8 (to_bytes 8 q ++ bs) ≡ to_bytes 8 q
unfolding to_bytes
take_word q bs = refl

drop_word : (q : ℕ) (bs : Bytes) → drop 8 (to_bytes 8 q ++ bs) ≡ bs
unfolding to_bytes
drop_word q bs = refl

long_enough : (q : ℕ) (bs : Bytes) → leb 8 (length (to_bytes 8 q ++ bs)) ≡ true
long_enough q bs = ground (arith, length-append (to_bytes 8 q) bs, length-to_bytes 8 q)

pub unpack-packed : (qs : List ℕ) → All IsU64 qs → unpack (length qs) (packed qs) ≡ ok qs
unfolding unpack packed
unpack-packed [] h = refl
unpack-packed (q ∷ qs) h = rw (
  long_enough q (packed qs),
  drop_word q (packed qs),
  take_word q (packed qs),
  unpack-packed qs h.1,
  from_bytes-to_bytes 8 q h.0,
)
