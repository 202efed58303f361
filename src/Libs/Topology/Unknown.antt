-- ===== src/Libs/Topology/Unknown.antt =====
-- A PCI device that hwloc does not know: the pointer to it is NULL.
use mathlib.Core.List.{Permᴰ}
use mathlib.Core.List.Permᴰ
use ucx_py.Prelude.{
  and_then, inr, inl, ℕ, zero, suc, ◌≡◌, refl, ap, Option, none, some, List, [], ◌∷◌, ◌==◌, length,
  arith, if◌then◌else◌, Bool-cases, List-cases, inl, inr,
}
use ucx_py.Prelude.Int.{ℤ}
use ucx_py.Struct.{Bytes}
use ucx_py.Exceptions.{Result, ok, err}
use ucx_py.Libs.Config.{Text}
use ucx_py.Libs.Topology.{Pointer, walk, round, climb}
use ucx_py.Libs.Topology.Distances.{
  OsdevType, Osdev, Dist, Slots, Topology, is_type, count_osdev_objects, measure, entry_of, malloc,
  fill, compare, osdev_type, get_osdev_distance_to_pcidev, entries,
  get_cuda_distances_from_pci_info,
}
use ucx_py.Libs.Topology.Sorted.{IsSort, compare-IsOrder, devices, count_osdev_objects-devices}

-- No device has a distance to NULL.
walk_null : (n : ℕ) (q : Pointer) (o : Osdev) → entry_of (walk n [] q) [] o ≡ none
unfolding walk round climb
walk_null zero [] o = refl
walk_null zero (x ∷ q) o = refl
walk_null (suc n) [] o = refl
walk_null (suc n) (x ∷ q) o = refl

measure-null : (o : Osdev) → measure [] o ≡ none
unfolding measure
measure-null o = walk_null _ o.at o

fill-null :
    (t : OsdevType) (i : ℕ) (slots : Slots) (os : List Osdev)
    → fill t [] i slots os ≡ (if length (devices t os) == 0 then some slots else none)
unfolding fill
fill-null t i slots [] = refl
fill-null t i slots (o ∷ os) = elim (Bool-cases (is_type t o)) [
  | inl e ↦ rw (e, fill, measure-null o) (ground arith)
  | inr e ↦ rw (e, fill) (fill-null t i slots os)
]

perm_empty : (ds : List Dist) → Permᴰ ds [] → ds ≡ []
perm_empty [] p = refl
perm_empty (d ∷ ds) p = let e = Permᴰ.length-eq p in cc

module _ (qsort : (Dist → Dist → ℤ) → List Dist → List Dist) where
  -- An empty array stays empty.
  qsort_empty : IsSort qsort → qsort compare [] ≡ []
  qsort_empty s = perm_empty (qsort compare []) (s.perm compare [] compare-IsOrder)

  distances_null :
      (t : OsdevType) (os : List Osdev)
      → IsSort qsort
      → get_osdev_distance_to_pcidev qsort os [] t
        ≡ (if length (devices t os) == 0 then some [] else none)
  unfolding get_osdev_distance_to_pcidev
  distances_null t os s = elim (List-cases (devices t os)) [
    | inl e ↦
        rw
          (
            e,
            count_osdev_objects-devices t os,
            fill-null t 0 (malloc (length (devices t os))) os,
            e,
          )
          (ap some (qsort_empty s))
    | inr (o, rest, e) ↦
        rw (e, fill-null t 0 (malloc (count_osdev_objects t os)) os, e) (ground arith)
  ]

module _ (qsort : (Dist → Dist → ℤ) → List Dist → List Dist) (decode : Bytes → Result Text) where
  answer_null :
      (r : Result OsdevType) (os : List Osdev) (p : Pointer)
      → p ≡ []
      → IsSort qsort
      → ◌≡◌ {A = Option (Result (List (ℕ × Text)))}
          (elim r [
            | err x ↦ some (err x)
            | ok t ↦
                and_then
                  (get_osdev_distance_to_pcidev qsort os p t)
                  (λ ds. some (entries decode ds))
          ])
          (elim r [
            | err x ↦ some (err x)
            | ok t ↦ if length (devices t os) == 0 then some (ok []) else none
          ])
  answer_null (err x) os p h s = refl
  answer_null (ok t) os p h s = rw (h, distances_null qsort t os s) (ground arith)

  -- For a PCI device that hwloc does not know: RuntimeError for an unknown type of device, the
  -- empty list if no device has the type, and a crash otherwise.
  pub get_cuda_distances_unknown :
      (topo : Topology) (domain bus device : ℕ) (device_type : Text)
      → IsSort qsort
      → topo.pcidev_by_busid domain bus device ≡ []
      → get_cuda_distances_from_pci_info qsort decode topo domain bus device device_type
        ≡ elim (osdev_type device_type) [
          | err x ↦ some (err x)
          | ok t ↦ if length (devices t topo.osdevs) == 0 then some (ok []) else none
        ]
  unfolding get_cuda_distances_from_pci_info
  get_cuda_distances_unknown topo domain bus device device_type s h =
      answer_null (osdev_type device_type) topo.osdevs _ h s
