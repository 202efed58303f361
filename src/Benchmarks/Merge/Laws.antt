-- ===== src/Benchmarks/Merge/Laws.antt =====
-- What the join relies on of cuDF, NumPy and pickle, by the number of times a row stands in a frame.
use ucx_py.Prelude.{ℕ, ◌+◌, ◌*◌, ◌<◌, ◌≡◌, some, List, [], ◌∷◌, map, length, ◌==◌, if◌then◌else◌}
use ucx_py.Struct.{IsU64}
use ucx_py.Benchmarks.Merge.{Cudf, range}

-- The columns "key" and "payload".
pub record Row : Type 0 where
  pub key : ℕ
  pub payload : ℕ

abbrev pub sum : (ℕ → ℕ) → List ℕ → ℕ
sum f [] = 0
sum f (x ∷ xs) = f x + sum f xs

abbrev pub total : {D : Type 0} → (D → ℕ) → List D → ℕ
total f [] = 0
total f (d ∷ ds) = f d + total f ds

-- `partition_by_hash` makes n frames by a hash of the key; `merge` joins by all columns that both
-- frames have, which are "key" and "payload".
pub record IsCudf {D H : Type 0} (lib : Cudf D H) : Type 0 where
  pub count : Row → D → ℕ
  pub hash : ℕ → ℕ → ℕ
  pub slice : D → ℕ → ℕ → D
  pub hash_lt : (n key : ℕ) → 0 < n → hash n key < n
  pub partition : (d : D) (n : ℕ) → lib.partition_by_hash d n ≡ map (slice d n) (range n)
  pub slice-count :
      (d : D) (n i : ℕ) (r : Row)
      → count r (slice d n i) ≡ (if hash n r.key == i then count r d else 0)
  pub concat-count : (ds : List D) (r : Row) → count r (lib.concat ds) ≡ total (count r) ds
  pub merge-count : (a b : D) (r : Row) → count r (lib.merge a b) ≡ count r a * count r b
  pub loads-dumps : (h : H) (sizes : List ℕ) → lib.loads (lib.dumps (h, sizes)) ≡ some (h, sizes)
  pub deserialize-serialize : (d : D) → lib.deserialize (lib.serialize d).0 (lib.serialize d).1 ≡ d

-- The length of the frame's header, as `send_df` makes it, is a number of 64 bits.
abbrev pub IsSendable : {D H : Type 0} → Cudf D H → D → Type 0
IsSendable lib d = IsU64 (length (lib.dumps ((lib.serialize d).0, map length (lib.serialize d).1)))
