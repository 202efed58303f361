-- ===== src/Libs/Topology/Sorted.antt =====
-- The list of distances: each device of the type once, the closest first.
use mathlib.Core.List.{Permᴰ, append_assoc, append-nil}
use ucx_py.Prelude.{
  ℕ, suc, ◌+◌, ◌≤◌, ◌≡◌, refl, ap, sym, ◌∙◌, true, false, none, some, List, [], ◌∷◌, ◌++◌, map,
  length, All, arith, if◌then◌else◌, Bool-cases, inl, inr, length-append,
}
use ucx_py.Prelude.Int.{ℤ, ltz, pos}
use ucx_py.Struct.{Bytes}
use ucx_py.Exceptions.{Result, ok}
use ucx_py.Libs.Config.{Text}
use ucx_py.Libs.Topology.{Pointer}
use ucx_py.Libs.Topology.Distances.{
  OsdevType, Osdev, Dist, Slots, Topology, is_type, count_from, count_osdev_objects, measure,
  malloc, write, fill, values, compare, osdev_type, get_osdev_distance_to_pcidev, entries,
  get_cuda_distances_from_pci_info,
}

-- A comparison that qsort can sort by.
pub record IsOrder (cmp : Dist → Dist → ℤ) : Type 0 where
  pub total : (a b : Dist) → ltz (pos 0) (cmp a b) ≡ true → ltz (pos 0) (cmp b a) ≡ false
  pub trans :
      (a b c : Dist)
      → ltz (pos 0) (cmp a b) ≡ false
      → ltz (pos 0) (cmp b c) ≡ false
      → ltz (pos 0) (cmp a c) ≡ false

-- No entry is followed by one that compares as smaller.
abbrev pub Ordered : (Dist → Dist → ℤ) → List Dist → Type 0
Ordered cmp [] = Unit
Ordered cmp (a ∷ []) = Unit
Ordered cmp (a ∷ b ∷ rest) = (ltz (pos 0) (cmp a b) ≡ false) × Ordered cmp (b ∷ rest)

-- What C promises of qsort.
pub record IsSort (qsort : (Dist → Dist → ℤ) → List Dist → List Dist) : Type 0 where
  pub perm : (cmp : Dist → Dist → ℤ) (ds : List Dist) → IsOrder cmp → Permᴰ (qsort cmp ds) ds
  pub ordered : (cmp : Dist → Dist → ℤ) (ds : List Dist) → IsOrder cmp → Ordered cmp (qsort cmp ds)

pub compare-IsOrder : IsOrder compare
compare-IsOrder = record { total = λ a b h. ground arith; trans = λ a b c h h'. ground arith }

abbrev pub Ascending : List Dist → Type 0
Ascending [] = Unit
Ascending (a ∷ []) = Unit
Ascending (a ∷ b ∷ rest) = (a.distance ≤ b.distance) × Ascending (b ∷ rest)

Ordered-Ascending : (ds : List Dist) → Ordered compare ds → Ascending ds
Ordered-Ascending [] o = tt
Ordered-Ascending (a ∷ []) o = tt
Ordered-Ascending (a ∷ b ∷ rest) (h, o) = (ground arith, Ordered-Ascending (b ∷ rest) o)

-- The devices of a type.
abbrev pub devices : OsdevType → List Osdev → List Osdev
devices t [] = []
devices t (o ∷ os) = if is_type t o then o ∷ devices t os else devices t os

count_from-devices :
    (t : OsdevType) (n : ℕ) (os : List Osdev) → count_from t n os ≡ n + length (devices t os)
unfolding count_from
count_from-devices t n [] = omega arith
count_from-devices t n (o ∷ os) =
    ground (arith, count_from-devices t n os, count_from-devices t (suc n) os)

-- The distances that the loop finds.
abbrev pub Measures : Pointer → (Osdev → Dist) → List Osdev → Type 0
Measures pcidev dist os = All (λ (o : Osdev). measure pcidev o ≡ some (dist o)) os

abbrev written : List Dist → Slots
written [] = []
written (d ∷ ds) = some d ∷ written ds

write-written :
    (ds : List Dist) (d : Dist) (rest : Slots)
    → write (length ds) d (written ds ++ none ∷ rest) ≡ some (written (ds ++ d ∷ []) ++ rest)
write-written [] d rest = refl
write-written (e ∷ ds) d rest = rw (write-written ds d rest) refl

values-written : (ds : List Dist) → values (written ds) ≡ some ds
values-written [] = refl
values-written (d ∷ ds) = rw (values-written ds) refl

written-append : (ds es : List Dist) → written (ds ++ es) ≡ written ds ++ written es
written-append [] es = refl
written-append (d ∷ ds) es = ap (λ r. some d ∷ r) (written-append ds es)

-- Every write falls into the array, and after the last one it is full.
fill-written :
    (t : OsdevType) (pcidev : Pointer) (dist : Osdev → Dist) (os : List Osdev) (ds : List Dist)
    → Measures pcidev dist (devices t os)
    → fill t pcidev (length ds) (written ds ++ malloc (length (devices t os))) os
      ≡ some (written (ds ++ map dist (devices t os)))
unfolding fill
fill-written t pcidev dist [] ds m =
    ap some (append-nil (written ds) ∙ sym (ap written (append-nil ds)))
fill-written t pcidev dist (o ∷ os) ds m = elim (Bool-cases (is_type t o)) [
  | inl e ↦
      let (here_, rest) : Measures pcidev dist (o ∷ devices t os) = rw e at m in
      let slots = written (ds ++ dist o ∷ []) ++ malloc (length (devices t os)) in
      rw (e, fill, e, here_, write-written ds (dist o) (malloc (length (devices t os))))
        (ap (λ k. fill t pcidev k slots os) (omega (arith, length-append ds (dist o ∷ [])))
          ∙ fill-written t pcidev dist os (ds ++ dist o ∷ []) rest
          ∙ ap (λ r. some (written r)) (append_assoc ds (dist o ∷ []) (map dist (devices t os))))
  | inr e ↦ rw (e, fill, e) (fill-written t pcidev dist os ds (rw e at m))
]

pub count_osdev_objects-devices :
    (t : OsdevType) (os : List Osdev) → count_osdev_objects t os ≡ length (devices t os)
unfolding count_osdev_objects
count_osdev_objects-devices t os = omega (arith, count_from-devices t 0 os)

module _ (qsort : (Dist → Dist → ℤ) → List Dist → List Dist) where
  distances_found :
      (t : OsdevType) (pcidev : Pointer) (dist : Osdev → Dist) (os : List Osdev)
      → Measures pcidev dist (devices t os)
      → get_osdev_distance_to_pcidev qsort os pcidev t
        ≡ some (qsort compare (map dist (devices t os)))
  unfolding get_osdev_distance_to_pcidev
  distances_found t pcidev dist os m =
      rw
        (
          count_osdev_objects-devices t os,
          fill-written t pcidev dist os [] m,
          values-written (map dist (devices t os)),
        )
        refl

module _ (qsort : (Dist → Dist → ℤ) → List Dist → List Dist) (decode : Bytes → Result Text) where
  -- Where C's qsort sorts, the type of device is known and every device of the type has a distance
  -- to the PCI device, the list that is returned has the distance and the name of each device of
  -- the type once, in ascending order of the distances, or raises what the decoding of a name
  -- raises; no write falls behind the array.
  pub get_cuda_distances_from_pci_info-sorted :
      (topo : Topology) (domain bus device : ℕ) (device_type : Text) (t : OsdevType)
      (dist : Osdev → Dist)
      → IsSort qsort
      → osdev_type device_type ≡ ok t
      → Measures (topo.pcidev_by_busid domain bus device) dist (devices t topo.osdevs)
      → (ds : List Dist) × (get_cuda_distances_from_pci_info qsort decode topo domain bus device
            device_type
          ≡ some (entries decode ds))
        × Permᴰ ds (map dist (devices t topo.osdevs))
        × Ascending ds
  unfolding get_cuda_distances_from_pci_info
  get_cuda_distances_from_pci_info-sorted topo domain bus device device_type t dist s h m =
      let found_ = map dist (devices t topo.osdevs) in
      (
        qsort compare found_,
        rw (get_cuda_distances_from_pci_info, h, distances_found qsort t _ dist topo.osdevs m) refl,
        s.perm compare found_ compare-IsOrder,
        Ordered-Ascending (qsort compare found_) (s.ordered compare found_ compare-IsOrder),
      )
