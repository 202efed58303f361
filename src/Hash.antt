-- ===== src/Hash.antt =====
-- `hash64bits` of ucp/utils.py. The digest of a tuple, sha1 over the bytes of its `repr`, is a
-- parameter: hashlib and repr are the standard library's.
use ucx_py.Prelude.{ℕ, zero, suc, ◌+◌, ◌*◌, ◌^◌, ◌≤◌, ◌<◌, List, [], ◌∷◌, take, length, All, arith}
use Prim.Native.String.{String}
use native.Mathlib.Nat.{pow-suc}
use ucx_py.Struct.{IsU64}

-- A Python object among the arguments: a number of either sign, a text or bytes.
pub data Arg : Type 0 where
  num : ℕ → Arg
  neg : ℕ → Arg
  text : String → Arg
  blob : List ℕ → Arg

-- What the program relies on of `hashlib.sha1(bytes(repr(args), "utf-8")).hexdigest()`: for every
-- tuple of arguments, hexadecimal digits (40 of them, of which the code keeps 16).
pub record Digest : Type 0 where
  pub hexdigest : List Arg → List ℕ
  pub hexadecimal : (args : List Arg) → All (λ d. d < 16) (hexdigest args)

-- `int(h, 16)`, from the digits read so far.
unfoldable pub int16 : ℕ → List ℕ → ℕ
int16 acc [] = acc
int16 acc (d ∷ ds) = int16 (acc * 16 + d) ds

unfoldable pub hash64bits : Digest → List Arg → ℕ
hash64bits sha1 args = int16 0 (take 16 (sha1.hexdigest args))

pow_pos : (k : ℕ) → 0 < 16 ^ k
pow_pos zero = omega arith
pow_pos (suc k) = rw pow-suc (omega (arith, pow_pos k))

int16-lt :
    (acc m : ℕ) (ds : List ℕ) (k : ℕ)
    → All (λ d. d < 16) ds
    → acc < m
    → length ds ≤ k
    → int16 acc ds < m * 16 ^ k
unfolding int16
int16-lt acc m [] k h b l = grind (arith, pow_pos k)
int16-lt acc m (d ∷ ds) zero h b l = absurd (omega arith)
int16-lt acc m (d ∷ ds) (suc k) h b l =
    rw pow-suc
      (omega (arith, int16-lt (acc * 16 + d) (m * 16) ds k h.1 (omega arith) (omega arith)))

take-hex : (n : ℕ) (ds : List ℕ) → All (λ d. d < 16) ds → All (λ d. d < 16) (take n ds)
take-hex zero ds h = tt
take-hex (suc n) [] h = tt
take-hex (suc n) (d ∷ ds) h = (h.0, take-hex n ds h.1)

length-take-le : (n : ℕ) (ds : List ℕ) → length (take n ds) ≤ n
length-take-le zero ds = omega arith
length-take-le (suc n) [] = omega arith
length-take-le (suc n) (d ∷ ds) = omega (arith, length-take-le n ds)

-- Every hash fits an unsigned 64-bit number.
pub hash64bits-IsU64 : (sha1 : Digest) (args : List Arg) → IsU64 (hash64bits sha1 args)
unfolding hash64bits
hash64bits-IsU64 sha1 args =
    let b =
      int16-lt 0 1 (take 16 (sha1.hexdigest args)) 16 (take-hex 16 _ (sha1.hexadecimal args))
        (omega arith) (length-take-le 16 (sha1.hexdigest args)) in
    omega (arith, b)
