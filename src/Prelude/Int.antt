-- ===== src/Prelude/Int.antt =====
-- Signed counters over the native numbers: the integers with successor and predecessor.
use Prim.Native.Nat.{ℕ, zero, suc, ◌+◌, ◌-◌}
use mathlib.Core.Bool.{Bool, true, false}
use mathlib.Core.Path.{◌≡◌, refl}
use native.Mathlib.Omega.{arith}
use ucx_py.Prelude.Tests.{ltb, if◌then◌else◌}

-- `negsuc n` is -(n + 1).
pub data ℤ : Type 0 where
  pos : ℕ → ℤ
  negsuc : ℕ → ℤ

abbrev pub inc : ℤ → ℤ
inc (pos n) = pos (suc n)
inc (negsuc zero) = pos zero
inc (negsuc (suc n)) = negsuc n

abbrev pub dec : ℤ → ℤ
dec (pos (suc n)) = pos n
dec (pos zero) = negsuc zero
dec (negsuc n) = negsuc (suc n)

abbrev pub is_zero : ℤ → Bool
is_zero (pos zero) = true
is_zero _ = false

-- The difference of two numbers.
abbrev pub sub_nat : ℕ → ℕ → ℤ
sub_nat a b = if ltb a b then negsuc (b - suc a) else pos (a - b)

infixl 6 ◌+ℤ◌
abbrev pub ◌+ℤ◌ : ℤ → ℤ → ℤ
pos a +ℤ pos b = pos (a + b)
pos a +ℤ negsuc b = sub_nat a (suc b)
negsuc a +ℤ pos b = sub_nat b (suc a)
negsuc a +ℤ negsuc b = negsuc (suc (a + b))

abbrev pub neg : ℤ → ℤ
neg (pos zero) = pos zero
neg (pos (suc n)) = negsuc n
neg (negsuc n) = pos (suc n)

abbrev pub ltz : ℤ → ℤ → Bool
ltz (pos a) (pos b) = ltb a b
ltz (pos a) (negsuc b) = false
ltz (negsuc a) (pos b) = true
ltz (negsuc a) (negsuc b) = ltb b a

inc_negsuc : (n : ℕ) → inc (negsuc n) ≡ (if ltb 0 n then negsuc (n - 1) else pos 0)
inc_negsuc zero = refl
inc_negsuc (suc n) = ground arith

pub inc-sub_nat : (a b : ℕ) → inc (sub_nat a b) ≡ sub_nat (suc a) b
inc-sub_nat a b = ground (arith, inc_negsuc (b - suc a))

pub dec-sub_nat : (a b : ℕ) → dec (sub_nat a b) ≡ sub_nat a (suc b)
dec-sub_nat a b = ground arith

pub sub_nat-suc : (a b : ℕ) → sub_nat (suc a) (suc b) ≡ sub_nat a b
sub_nat-suc a b = ground arith

pub ltz-sub_nat : (a b m : ℕ) → ltz (sub_nat a b) (pos m) ≡ ltb a (m + b)
ltz-sub_nat a b m = ground arith
