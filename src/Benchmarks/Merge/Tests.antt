-- ===== src/Benchmarks/Merge/Tests.antt =====
-- Frames whose rows are all alike, and the theorems about them at concrete inputs.
use mathlib.Core.List.{Permᴰ}
use ucx_py.Prelude.{
  ℕ, zero, suc, ◌+◌, ◌*◌, ◌≡◌, refl, ◌&&◌, Option, none, some, List, [], ◌∷◌, map, arith, ◌==◌,
  if◌then◌else◌, All,
}
use ucx_py.Struct.{Bytes}
use ucx_py.Benchmarks.Merge.{Cudf, range, distributed_join, wire}
use ucx_py.Benchmarks.Merge.Laws.{Row, IsCudf, sum, total}
use ucx_py.Benchmarks.Merge.Join.{IsPeers, held, distributed_join-merge}

-- Rows of key 0 and payload 0: a frame is how many it has.
abbrev slice : ℕ → ℕ → ℕ → ℕ
slice d n i = if 0 == i then d else 0

abbrev loads : Bytes → Option (ℕ × List ℕ)
loads [] = none
loads (h ∷ sizes) = some (h, sizes)

abbrev lib : Cudf ℕ ℕ
lib = record {
  serialize = λ d. (0, (d ∷ []) ∷ []);
  deserialize = λ h frames. elim frames [ [] ↦ 0 | f ∷ fs ↦ elim f [ [] ↦ 0 | d ∷ ds ↦ d ] ];
  dumps = λ p. p.0 ∷ p.1;
  loads = loads;
  partition_by_hash = λ d n. map (slice d n) (range n);
  concat = λ ds. total (λ (d : ℕ). d) ds;
  merge = λ a b. a * b;
}

abbrev is_zero_row : Row → ℕ → ℕ
is_zero_row r d = if r.key == 0 && r.payload == 0 then d else 0

slice-row :
    (d n i : ℕ) (r : Row) → is_zero_row r (slice d n i) ≡ (if 0 == i then is_zero_row r d else 0)
slice-row d n i r = ground arith

total-row :
    (ds : List ℕ) (r : Row) → is_zero_row r (total (λ (d : ℕ). d) ds) ≡ total (is_zero_row r) ds
total-row [] r = ground arith
total-row (d ∷ ds) r = ground (arith, total-row ds r)

product-row : (a b : ℕ) (r : Row) → is_zero_row r (a * b) ≡ is_zero_row r a * is_zero_row r b
product-row a b r = ground arith

laws : IsCudf lib
laws = record {
  count = is_zero_row;
  hash = λ n key. 0;
  slice = slice;
  hash_lt = λ n key h. h;
  partition = λ d n. refl;
  slice-count = λ d n i r. slice-row d n i r;
  concat-count = λ ds r. total-row ds r;
  merge-count = λ a b r. product-row a b r;
  loads-dumps = λ h sizes. refl;
  deserialize-serialize = λ d. refl;
}

abbrev left : ℕ → ℕ
left j = j + 2

abbrev right : ℕ → ℕ
right j = 3

-- Two workers.
abbrev peers : ℕ → List ℕ
peers zero = 1 ∷ []
peers (suc i) = 0 ∷ []

peers-IsPeers : IsPeers 2 peers
peers-IsPeers zero h = Permᴰ.cons refl (Permᴰ.cons refl Permᴰ.nil)
peers-IsPeers (suc zero) h = Permᴰ.swap refl refl
peers-IsPeers (suc (suc i)) h = absurd (omega (arith, h))

abbrev row : Row
row = record { key = 0; payload = 0 }

distributed_join-merge_example :
    All
      (λ i.
        distributed_join lib 2 i (left i) (right i) (map (wire lib 2 left right i) (peers i))
        ≡ some (held lib laws 2 left right peers i))
      (range 2)
    × (sum (λ i. laws.count row (held lib laws 2 left right peers i)) (range 2)
        ≡ laws.count row
            (lib.merge (lib.concat (map left (range 2))) (lib.concat (map right (range 2)))))
distributed_join-merge_example =
    distributed_join-merge lib laws 2 left right peers row (omega arith) peers-IsPeers
      (λ i j. omega arith) (λ i j. omega arith)
