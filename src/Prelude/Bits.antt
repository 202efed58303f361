-- ===== src/Prelude/Bits.antt =====
-- The binary digits of the native numbers, under `|` and `&`.
use Prim.Native.Nat.{
  ℕ, zero, suc, ◌+◌, ◌*◌, ◌/◌, ◌%◌, ◌^◌, ◌≤◌, ◌<◌, min, max, digits, bit_or, bit_or-bitwise,
  bit_and, bit_and-bitwise,
}
use mathlib.Core.Path.{◌≡◌, refl, ap, ◌∙◌}
use native.Mathlib.Omega.{arith}
use native.Mathlib.Nat.{pow-suc}
use ucx_py.Prelude.Tests.{◌==◌, if◌then◌else◌}

-- The digit at a place, from the lowest on.
abbrev pub bit : ℕ → ℕ → ℕ
bit zero a = a % 2
bit (suc i) a = bit i (a / 2)

-- More fuel than digits changes nothing, whatever the operation.
digits-more :
    (z : ℕ → ℕ) (f : ℕ → ℕ → ℕ) (n m a b : ℕ) → a ≤ n → a ≤ m → digits z f n a b ≡ digits z f m a b
digits-more z f zero zero zero b h k = refl
digits-more z f zero (suc m) zero b h k = refl
digits-more z f (suc n) zero zero b h k = refl
digits-more z f (suc n) (suc m) zero b h k = refl
digits-more z f zero m (suc a) b h k = absurd (omega (arith, h))
digits-more z f (suc n) zero (suc a) b h k = absurd (omega (arith, k))
digits-more z f (suc n) (suc m) (suc a) b h k =
    ap (λ x. x * 2 + f (suc a % 2) (b % 2))
      (digits-more z f n m (suc a / 2) (b / 2) (omega (arith, h)) (omega (arith, k)))

bit_or-halves : (a b : ℕ) → bit_or a b ≡ bit_or (a / 2) (b / 2) * 2 + max (a % 2) (b % 2)
bit_or-halves zero b = omega (arith, bit_or-bitwise 0 b, bit_or-bitwise 0 (b / 2))
bit_or-halves (suc a) b =
    let more =
      digits-more (λ x. x) max a (suc a / 2) (suc a / 2) (b / 2) (omega arith) (omega arith) in
    omega (arith, bit_or-bitwise (suc a) b, bit_or-bitwise (suc a / 2) (b / 2), more)

bit_and-halves : (a b : ℕ) → bit_and a b ≡ bit_and (a / 2) (b / 2) * 2 + min (a % 2) (b % 2)
bit_and-halves zero b = omega (arith, bit_and-bitwise 0 b, bit_and-bitwise 0 (b / 2))
bit_and-halves (suc a) b =
    let more =
      digits-more (λ x. 0) min a (suc a / 2) (suc a / 2) (b / 2) (omega arith) (omega arith) in
    omega (arith, bit_and-bitwise (suc a) b, bit_and-bitwise (suc a / 2) (b / 2), more)

pub bit-bit_or : (i a b : ℕ) → bit i (bit_or a b) ≡ max (bit i a) (bit i b)
bit-bit_or zero a b = omega (arith, bit_or-halves a b)
bit-bit_or (suc i) a b =
    let half : bit_or a b / 2 ≡ bit_or (a / 2) (b / 2) = omega (arith, bit_or-halves a b) in
    rw half (bit-bit_or i (a / 2) (b / 2))

pub bit-zero : (i : ℕ) → bit i 0 ≡ 0
bit-zero zero = refl
bit-zero (suc i) = bit-zero i

-- A power of two has one digit.
pub bit-power : (i k : ℕ) → bit i (2 ^ k) ≡ (if i == k then 1 else 0)
bit-power zero zero = refl
bit-power zero (suc k) = rw pow-suc (ground arith)
bit-power (suc i) zero = ground (arith, bit-zero i)
bit-power (suc i) (suc k) =
    let half : 2 ^ suc k / 2 ≡ 2 ^ k = rw pow-suc (omega arith) in
    rw half (ground (arith, bit-power i k))

-- The number of k digits that are all one.
abbrev pub ones : ℕ → ℕ
ones zero = 0
ones (suc k) = ones k * 2 + 1

pub bit_and-ones : (k a : ℕ) → a < 2 ^ k → bit_and a (ones k) ≡ a
bit_and-ones zero a h = let e : a ≡ 0 = omega (arith, h) in rw e refl
bit_and-ones (suc k) a h =
    let h' : a < 2 ^ k * 2 = rw pow-suc at h in
    let half : (ones k * 2 + 1) / 2 ≡ ones k = omega arith in
    let e : bit_and a (ones k * 2 + 1) ≡ bit_and (a / 2) (ones k) * 2 + min (a % 2) 1 =
      bit_and-halves a (ones k * 2 + 1) ∙ rw half (omega arith) in
    omega (arith, e, bit_and-ones k (a / 2) (omega (arith, h')))
