-- ===== src/Libs/Topology.antt =====
-- ucp/_libs/src/topological_distance.c: the walk to a common ancestor over the objects of hwloc. A
-- pointer to an object is the path from the object to the root of the topology; the parent of an
-- object is the rest of the path, and the empty path is NULL.
pub mod Ancestor
pub mod Bridges
pub mod Distances
pub mod Nearest
pub mod Null
pub mod Sorted
pub mod Unknown
mod Tests
use ucx_py.Prelude.{
  and_then, ℕ, zero, suc, ◌+◌, Bool, true, false, not, ◌&&◌, Option, none, some, List, [], ◌∷◌,
  ◌==◌, length, if◌then◌else◌,
}
use ucx_py.Prelude.Int.{ℤ, ltz, pos, negsuc}

-- An object of hwloc; `gp_index` tells objects apart, and `bridge_depth` is what a read of
-- `attr->bridge.depth` gives, also where the object is no bridge.
pub record Object : Type 0 where
  pub gp_index : ℕ
  pub depth : ℤ
  pub bridge_depth : ℕ

abbrev pub Pointer : Type 0
Pointer = List Object

-- `obj1 == obj2`
abbrev pub same : Pointer → Pointer → Bool
same [] [] = true
same (x ∷ up) (y ∷ up') = x.gp_index == y.gp_index
same _ _ = false

-- `obj->depth`; `none` is the crash of reading through NULL.
abbrev pub depth_of : Pointer → Option ℤ
depth_of [] = none
depth_of (x ∷ up) = some x.depth

abbrev pub parent : Pointer → Pointer
parent [] = []
parent (x ∷ up) = up

-- `while(obj->depth < d) obj = obj->parent;`
unfoldable pub climb : ℤ → Pointer → Option Pointer
climb d [] = none
climb d (x ∷ up) = let rest = climb d up in if ltz x.depth d then rest else some (x ∷ up)

abbrev pub equal_depth : ℤ → ℤ → Bool
equal_depth d e = not (ltz d e) && not (ltz e d)

-- The last statement of the loop's body, by its test.
abbrev pub advance : Bool → Pointer → Pointer → Pointer × Pointer
advance true a b = (parent a, parent b)
advance false a b = (a, b)

-- The body of the outer loop.
unfoldable pub round : Pointer → Pointer → Option (Pointer × Pointer)
round obj1 obj2 = and_then (depth_of obj2) (λ d2. and_then (climb d2 obj1) (λ a.
    and_then (depth_of a) (λ d1.
      and_then (climb d1 obj2) (λ b.
        and_then (depth_of b) (λ e. some (advance (not (same a b) && equal_depth d1 e) a b))))))

-- How the loop ends; `running` is that the rounds given were not enough.
pub data Walk : Type 0 where
  found : Pointer → Walk
  crashed : Walk
  running : Walk

-- The outer loop for a number of rounds.
unfoldable pub walk : ℕ → Pointer → Pointer → Walk
walk zero obj1 obj2 = if same obj1 obj2 then found obj1 else running
walk (suc n) obj1 obj2 = elim (same obj1 obj2) [
  | true ↦ found obj1
  | false ↦ elim (round obj1 obj2) [ none ↦ crashed | some (a, b) ↦ walk n a b ]
]

-- `hwloc_get_common_pcidev_ancestor_obj`
abbrev pub common_ancestor : Pointer → Pointer → Walk
common_ancestor obj1 obj2 = walk (length obj1 + length obj2) obj1 obj2

-- The depths that hwloc gives to bridges, PCI devices and OS devices.
abbrev pub bridge_level : ℤ
bridge_level = negsuc 3

abbrev pub pci_level : ℤ
pci_level = negsuc 4

abbrev pub os_level : ℤ
os_level = negsuc 5
