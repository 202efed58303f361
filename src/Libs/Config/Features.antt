-- ===== src/Libs/Config/Features.antt =====
-- The features of a context: class Feature of ucp/_libs/typedefs.pyx, and the mask that
-- `UCXContext.__init__` of ucx_context.pyx hands to UCX.
use ucx_py.Prelude.{ℕ, ◌^◌, ◌≡◌, refl, Bool, false, ◌||◌, List, [], ◌∷◌, ◌==◌, if◌then◌else◌, arith}
use Prim.Native.Nat.{bit_or, max}
use ucx_py.Prelude.{ap, sym, ◌∙◌}
use ucx_py.Prelude.Bits.{bit-zero, bit, bit-bit_or, bit-power}

pub data Feature : Type 0 where
  tag rma amo32 amo64 wakeup stream am : Feature

-- The members of an Enum differ.
abbrev pub index : Feature → ℕ
index tag = 0
index rma = 1
index amo32 = 2
index amo64 = 3
index wakeup = 4
index stream = 5
index am = 6

from_index : ℕ → Feature
from_index n =
    if n == 0
    then tag
    else if n == 1
    then rma
    else if n == 2
    then amo32
    else if n == 3
    then amo64
    else if n == 4
    then wakeup
    else if n == 5
    then stream
    else am

from_index-index : (f : Feature) → from_index (index f) ≡ f
unfolding from_index
from_index-index tag = refl
from_index-index rma = refl
from_index-index amo32 = refl
from_index-index amo64 = refl
from_index-index wakeup = refl
from_index-index stream = refl
from_index-index am = refl

-- `feature in feature_flags`
unfoldable pub asks : Feature → List Feature → Bool
asks f [] = false
asks f (g ∷ flags) = index f == index g || asks f flags

-- The default of `feature_flags`.
abbrev pub default_flags : List Feature
default_flags = tag ∷ wakeup ∷ stream ∷ am ∷ rma ∷ []

-- `place` is the digit of the constant UCP_FEATURE_*.
module _ (place : Feature → ℕ) where
  unfoldable pub reduce_from : ℕ → List Feature → ℕ
  reduce_from x [] = x
  reduce_from x (y ∷ flags) = reduce_from (bit_or x (2 ^ place y)) flags

  -- `functools.reduce(lambda x, y: x | y.value, feature_flags, 0)`
  unfoldable pub features : List Feature → ℕ
  unfolding reduce_from
  features flags = reduce_from 0 flags

  same_place :
      ((f g : Feature) → place f ≡ place g → index f ≡ index g)
      → (f g : Feature) → (place f == place g) ≡ (index f == index g)
  same_place apart f g =
      let back : index f ≡ index g → place f ≡ place g =
        λ e. ap place (sym (from_index-index f) ∙ ap from_index e ∙ from_index-index g) in
      ground (arith, apart f g, back)

  reduce_from_lem :
      ((f g : Feature) → place f ≡ place g → index f ≡ index g)
      → (f : Feature) (x : ℕ) (flags : List Feature)
      → bit (place f) (reduce_from x flags) ≡ max (bit (place f) x) (if asks f flags then 1 else 0)
  unfolding reduce_from asks
  reduce_from_lem apart f x [] = ground arith
  reduce_from_lem apart f x (g ∷ flags) = ground (
    arith,
    reduce_from_lem apart f (bit_or x (2 ^ place g)) flags,
    bit-bit_or (place f) x (2 ^ place g),
    bit-power (place f) (place g),
    same_place apart f g,
  )

  -- Where UCX's constants for the features have one binary digit each, all different, the mask that
  -- a context hands to UCX has the digit of a feature exactly when the feature stands among the
  -- flags, in any order and any number of times.
  pub features-asks :
      ((f g : Feature) → place f ≡ place g → index f ≡ index g)
      → (f : Feature) (flags : List Feature)
      → bit (place f) (features flags) ≡ (if asks f flags then 1 else 0)
  unfolding features
  features-asks apart f flags = ground (arith, reduce_from_lem apart f 0 flags, bit-zero (place f))
