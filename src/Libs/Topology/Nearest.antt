-- ===== src/Libs/Topology/Nearest.antt =====
-- The distance of a device by the closest bridge that it shares with the PCI device.
use ucx_py.Prelude.{ℕ, ◌+◌, ◌-◌, ◌<◌, ◌≡◌, refl, some, ◌∷◌, ◌++◌, length, All, arith}
use ucx_py.Libs.Topology.{Object, Pointer}
use ucx_py.Libs.Topology.Bridges.{IsBridge, Apart, IsStart, common_ancestor-nearest}
use ucx_py.Libs.Topology.Distances.{Osdev, int_distance, measure}

abbrev IsInt : ℕ → Type 0
IsInt n = n < 2147483648

int_distance_lem : (a b : ℕ) → IsInt a → IsInt b → int_distance a b ≡ (a - b) + (b - a)
unfolding int_distance
int_distance_lem a b h k = ground arith

-- Where the PCI device and the device to measure have bridges above them, equally many and
-- different ones at each level, below the first object that they share, the distance of the device
-- is the difference of the bridge depths of that object and of the PCI device, for depths below 2 ^
-- 31.
pub measure-nearest :
    (p o q z : Object) (xs ys up : Pointer) (dev : Osdev)
    → dev.at ≡ o ∷ q ∷ (ys ++ z ∷ up)
    → IsStart p o q
    → All IsBridge xs
    → All IsBridge ys
    → Apart xs ys
    → length xs ≡ length ys
    → IsInt z.bridge_depth
    → IsInt p.bridge_depth
    → measure (p ∷ (xs ++ z ∷ up)) dev
      ≡ some (record {
        distance = (z.bridge_depth - p.bridge_depth) + (p.bridge_depth - z.bridge_depth);
        src = p ∷ (xs ++ z ∷ up);
        dst = dev;
      })
unfolding measure
measure-nearest p o q z xs ys up dev e s b b' a l i j =
    rw
      (
        e,
        common_ancestor-nearest p o q z xs ys up s b b' a l,
        int_distance_lem z.bridge_depth p.bridge_depth i j,
      )
      refl
