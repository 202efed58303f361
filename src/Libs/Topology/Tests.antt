-- ===== src/Libs/Topology/Tests.antt =====
-- A host with two groups of bridges, and the theorems about it at concrete inputs.
use ucx_py.Prelude.{ℕ, ◌≡◌, ◌⊎◌, refl, true, some, List, [], ◌∷◌, arith, inl, inr, if◌then◌else◌}
use mathlib.Core.List.{Permᴰ}
use mathlib.Core.List.Permᴰ
use ucx_py.Prelude.{Bool-cases}
use ucx_py.Prelude.Int.{ℤ, pos, ltz}
use ucx_py.Exceptions.{Result, ok}
use ucx_py.Libs.Config.{Text}
use ucx_py.Struct.{Bytes}
use ucx_py.Libs.Topology.{
  Object, Pointer, same, found, crashed, walk, bridge_level, pci_level, os_level,
}
use ucx_py.Libs.Topology.Ancestor.{IsAbove, walk-ends}
use ucx_py.Libs.Topology.Bridges.{IsStart}
use ucx_py.Libs.Topology.Distances.{
  OsdevType, Osdev, Dist, Topology, measure, entries, network_text, osdev_type, is_type,
  get_cuda_distances_from_pci_info,
}
use ucx_py.Libs.Topology.Nearest.{measure-nearest}
use ucx_py.Libs.Topology.Sorted.{
  IsOrder, IsSort, Ordered, Ascending, get_cuda_distances_from_pci_info-sorted,
}

abbrev object : ℕ → ℤ → ℕ → Object
object n d b = record { gp_index = n; depth = d; bridge_depth = b }

abbrev host : Pointer
host = object 1 (pos 0) 0 ∷ []

abbrev root_bridge : Object
root_bridge = object 2 bridge_level 0

abbrev left_bridge : Object
left_bridge = object 3 bridge_level 1

abbrev right_bridge : Object
right_bridge = object 4 bridge_level 1

abbrev gpu : Object
gpu = object 5 pci_level 2

abbrev card : Object
card = object 6 pci_level 2

abbrev port : Object
port = object 7 os_level 0

abbrev ib0 : Osdev
ib0 = record {
  type = OsdevType.network;
  name = 105 ∷ 98 ∷ 48 ∷ [];
  at = port ∷ card ∷ right_bridge ∷ root_bridge ∷ host;
}

starts : IsStart gpu port card
starts = record { pci = refl; os = refl; pci' = refl; other = refl; apart = refl }

measure-nearest_example :
    measure (gpu ∷ left_bridge ∷ root_bridge ∷ host) ib0
    ≡ some (record { distance = 2; src = gpu ∷ left_bridge ∷ root_bridge ∷ host; dst = ib0 })
measure-nearest_example =
    measure-nearest gpu port card root_bridge (left_bridge ∷ []) (right_bridge ∷ []) host ib0 refl
      starts (refl, tt) (refl, tt) (refl, tt) refl (omega arith) (omega arith)

-- The GPU hangs on a socket, the card on the machine above it.
abbrev socket : Object
socket = object 8 (pos 1) 0

walk-ends_example :
    let p = gpu ∷ left_bridge ∷ root_bridge ∷ host in
    let q = port ∷ card ∷ root_bridge ∷ host in
    (walk 9 p q ≡ crashed)
    ⊎ ((c c' : Pointer) × (walk 9 p q ≡ found c) × IsAbove c p × IsAbove c' q × (same c c' ≡ true))
walk-ends_example =
    walk-ends 9 (gpu ∷ left_bridge ∷ root_bridge ∷ host) (port ∷ card ∷ root_bridge ∷ host)
      (omega arith)

-- A sort by insertion.
insert_by : (Dist → Dist → ℤ) → Dist → List Dist → List Dist
insert_by cmp d [] = d ∷ []
insert_by cmp d (e ∷ es) =
    let rest = insert_by cmp d es in if ltz (pos 0) (cmp d e) then e ∷ rest else d ∷ e ∷ es

sort : (Dist → Dist → ℤ) → List Dist → List Dist
sort cmp [] = []
sort cmp (d ∷ ds) = insert_by cmp d (sort cmp ds)

insert_by-Permᴰ :
    (cmp : Dist → Dist → ℤ) (d : Dist) (ds : List Dist) → Permᴰ (insert_by cmp d ds) (d ∷ ds)
unfolding insert_by
insert_by-Permᴰ cmp d [] = Permᴰ.refl (d ∷ [])
insert_by-Permᴰ cmp d (e ∷ es) = elim (Bool-cases (ltz (pos 0) (cmp d e))) [
  | inl h ↦ rw h (Permᴰ.trans (Permᴰ.cons refl (insert_by-Permᴰ cmp d es)) (Permᴰ.swap refl refl))
  | inr h ↦ rw h (Permᴰ.refl (d ∷ e ∷ es))
]

sort-Permᴰ : (cmp : Dist → Dist → ℤ) (ds : List Dist) → Permᴰ (sort cmp ds) ds
unfolding sort
sort-Permᴰ cmp [] = Permᴰ.nil
sort-Permᴰ cmp (d ∷ ds) =
    Permᴰ.trans (insert_by-Permᴰ cmp d (sort cmp ds)) (Permᴰ.cons refl (sort-Permᴰ cmp ds))

insert_by-Ordered :
    (cmp : Dist → Dist → ℤ) (d : Dist) (ds : List Dist)
    → IsOrder cmp
    → Ordered cmp ds
    → Ordered cmp (insert_by cmp d ds)
unfolding insert_by
insert_by-Ordered cmp d [] o h = tt
insert_by-Ordered cmp d (e ∷ []) o h = ground (arith, o.total d e)
insert_by-Ordered cmp d (e ∷ f ∷ es) o h =
    ground (arith, o.total d e, insert_by-Ordered cmp d (f ∷ es) o h.1)

sort-Ordered : (cmp : Dist → Dist → ℤ) (ds : List Dist) → IsOrder cmp → Ordered cmp (sort cmp ds)
unfolding sort
sort-Ordered cmp [] o = tt
sort-Ordered cmp (d ∷ ds) o = insert_by-Ordered cmp d (sort cmp ds) o (sort-Ordered cmp ds o)

sort-IsSort : IsSort sort
sort-IsSort = record {
  perm = λ cmp ds o. sort-Permᴰ cmp ds;
  ordered = λ cmp ds o. sort-Ordered cmp ds o;
}

abbrev decode : Bytes → Result Text
decode bs = ok bs

abbrev topo : Topology
topo = record {
  osdevs = ib0 ∷ [];
  pcidev_by_busid = λ domain bus device. gpu ∷ left_bridge ∷ root_bridge ∷ host;
}

abbrev blind : Topology
blind = record { osdevs = ib0 ∷ []; pcidev_by_busid = λ domain bus device. [] }

abbrev measured : Osdev → Dist
measured dev = record { distance = 2; src = gpu ∷ left_bridge ∷ root_bridge ∷ host; dst = dev }

network_type : osdev_type network_text ≡ ok OsdevType.network
unfolding osdev_type
network_type = refl

get_cuda_distances_from_pci_info-sorted_example :
    (ds : List Dist) × (get_cuda_distances_from_pci_info sort decode topo 0 5 0 network_text
      ≡ some (entries decode ds))
    × Permᴰ ds (measured ib0 ∷ [])
    × Ascending ds
unfolding is_type
get_cuda_distances_from_pci_info-sorted_example =
    get_cuda_distances_from_pci_info-sorted sort decode topo 0 5 0 network_text OsdevType.network
      measured sort-IsSort network_type (measure-nearest_example, tt)
