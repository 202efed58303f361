-- ===== src/Libs/Topology/Distances.antt =====
-- ucp/_libs/src/topological_distance.c: the distances of the OS devices of a type to a PCI device, and
-- the class TopologicalDistance of ucp/_libs/topological_distance.pyx. `none` is a crash.
use ucx_py.Prelude.{
  and_then, ℕ, zero, suc, ◌+◌, ◌-◌, ◌%◌, Bool, true, false, Option, none, some, List, [], ◌∷◌, ltb,
  if◌then◌else◌,
}
use ucx_py.Prelude.Int.{ℤ, sub_nat}
use ucx_py.Exceptions.{Exn, Result, ok, err}
use ucx_py.Prelude.{◌==◌}
use ucx_py.Struct.{Bytes}
use ucx_py.Libs.Config.{Text, text_eq}
use ucx_py.Libs.Topology.{Pointer, Walk, found, crashed, running, common_ancestor}

pub data OsdevType : Type 0 where
  block gpu network openfabrics dma coproc : OsdevType

abbrev pub code : OsdevType → ℕ
code OsdevType.block = 0
code OsdevType.gpu = 1
code OsdevType.network = 2
code OsdevType.openfabrics = 3
code OsdevType.dma = 4
code OsdevType.coproc = 5

pub record Osdev : Type 0 where
  pub type : OsdevType
  pub name : Bytes
  pub at : Pointer

unfoldable pub is_type : OsdevType → Osdev → Bool
is_type t o = code o.type == code t

-- An entry of the array: `topological_distance_objs_t`.
pub record Dist : Type 0 where
  pub distance : ℕ
  pub src : Pointer
  pub dst : Osdev

unfoldable pub count_from : OsdevType → ℕ → List Osdev → ℕ
count_from t count [] = count
count_from t count (o ∷ os) = count_from t (if is_type t o then suc count else count) os

unfoldable pub count_osdev_objects : OsdevType → List Osdev → ℕ
unfolding count_from
count_osdev_objects t os = count_from t 0 os

-- The difference of two 32-bit unsigned numbers as an `int`, and its absolute value.
unfoldable pub int_distance : ℕ → ℕ → ℕ
int_distance a b =
    let w = (a + (4294967296 - b)) % 4294967296 in if ltb w 2147483648 then w else 4294967296 - w

-- `ancestor->attr` and `pcidev->attr` are read.
abbrev pub dist_to : Pointer → Pointer → Osdev → Option Dist
dist_to (a ∷ up) (p ∷ up') o =
    some (record { distance = int_distance a.bridge_depth p.bridge_depth; src = p ∷ up'; dst = o })
dist_to _ _ o = none

abbrev pub entry_of : Walk → Pointer → Osdev → Option Dist
entry_of (found a) pcidev o = dist_to a pcidev o
entry_of crashed pcidev o = none
entry_of running pcidev o = none

-- The distance of one device in the loop.
unfoldable pub measure : Pointer → Osdev → Option Dist
measure pcidev o = entry_of (common_ancestor pcidev o.at) pcidev o

-- The array of malloc, `none` where nothing has been written yet; a write behind its end is a crash.
abbrev pub Slots : Type 0
Slots = List (Option Dist)

abbrev pub malloc : ℕ → Slots
malloc zero = []
malloc (suc n) = none ∷ malloc n

abbrev pub write : ℕ → Dist → Slots → Option Slots
write i d [] = none
write zero d (x ∷ xs) = some (some d ∷ xs)
write (suc i) d (x ∷ xs) = and_then (write i d xs) (λ ys. some (x ∷ ys))

-- The loop over the devices.
unfoldable pub fill : OsdevType → Pointer → ℕ → Slots → List Osdev → Option Slots
fill t pcidev i slots [] = some slots
fill t pcidev i slots (o ∷ os) = elim (is_type t o) [
  | false ↦ fill t pcidev i slots os
  | true ↦
      and_then (measure pcidev o)
        (λ d. and_then (write i d slots) (λ slots'. fill t pcidev (suc i) slots' os))
]

-- What the array holds, where it has been written as a whole.
abbrev pub values : Slots → Option (List Dist)
values [] = some []
values (none ∷ xs) = none
values (some d ∷ xs) = and_then (values xs) (λ ds. some (d ∷ ds))

-- `compare_topological_distance_objs`
abbrev pub compare : Dist → Dist → ℤ
compare obj1 obj2 = sub_nat obj1.distance obj2.distance

pub record Topology : Type 0 where
  pub osdevs : List Osdev
  pub pcidev_by_busid : ℕ → ℕ → ℕ → Pointer

abbrev openfabrics_text : Text
openfabrics_text = 111 ∷ 112 ∷ 101 ∷ 110 ∷ 102 ∷ 97 ∷ 98 ∷ 114 ∷ 105 ∷ 99 ∷ 115 ∷ []

abbrev pub network_text : Text
network_text = 110 ∷ 101 ∷ 116 ∷ 119 ∷ 111 ∷ 114 ∷ 107 ∷ []

abbrev block_text : Text
block_text = 98 ∷ 108 ∷ 111 ∷ 99 ∷ 107 ∷ []

unfoldable pub osdev_type : Text → Result OsdevType
osdev_type device_type =
    if text_eq device_type openfabrics_text
    then ok OsdevType.openfabrics
    else (if text_eq device_type network_text
        then ok OsdevType.network
        else (if text_eq device_type block_text then ok OsdevType.block else err Exn.runtime_error))

-- `qsort` is C's.
module _ (qsort : (Dist → Dist → ℤ) → List Dist → List Dist) where
  unfoldable pub get_osdev_distance_to_pcidev :
      List Osdev → Pointer → OsdevType → Option (List Dist)
  get_osdev_distance_to_pcidev os pcidev t =
      and_then (fill t pcidev 0 (malloc (count_osdev_objects t os)) os)
        (λ slots. and_then (values slots) (λ ds. some (qsort compare ds)))

-- `get_topological_distance_and_name`, and the list that Python makes of it; `decode` is Python's for
-- UTF-8.
abbrev pub entries : (Bytes → Result Text) → List Dist → Result (List (ℕ × Text))
entries decode [] = ok []
entries decode (d ∷ ds) = elim (decode d.dst.name) [
  | err x ↦ err x
  | ok name ↦ elim (entries decode ds) [ err x ↦ err x | ok rest ↦ ok ((d.distance, name) ∷ rest) ]
]

module _ (qsort : (Dist → Dist → ℤ) → List Dist → List Dist) (decode : Bytes → Result Text) where
  unfoldable pub get_cuda_distances_from_pci_info :
      Topology → ℕ → ℕ → ℕ → Text → Option (Result (List (ℕ × Text)))
  get_cuda_distances_from_pci_info topo domain bus device device_type =
      elim (osdev_type device_type) [
        | err x ↦ some (err x)
        | ok t ↦
            and_then
              (get_osdev_distance_to_pcidev qsort topo.osdevs
                (topo.pcidev_by_busid domain bus device) t)
              (λ ds. some (entries decode ds))
      ]

  -- The calls of NVML: its start, and the bus numbers of a device.
  unfoldable pub get_cuda_distances_from_device_index :
      Topology
      → Result (Unit {0})
      → (ℕ → Result (ℕ × ℕ × ℕ))
      → ℕ
      → Text
      → Option (Result (List (ℕ × Text)))
  get_cuda_distances_from_device_index topo (err x) pci_info index device_type = some (err x)
  get_cuda_distances_from_device_index topo (ok _) pci_info index device_type =
      elim (pci_info index) [
        | err x ↦ some (err x)
        | ok (domain, bus, device) ↦
            get_cuda_distances_from_pci_info topo domain bus device device_type
      ]
