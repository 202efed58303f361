-- ===== src/Benchmarks/Merge/Chunks.antt =====
-- `generate_chunk` of benchmarks/cudf-merge.py: the columns of the tables that are joined.
use ucx_py.Prelude.{
  ℕ, zero, suc, ◌+◌, ◌-◌, ◌*◌, ◌/◌, List, [], ◌++◌, length, take, ◌==◌, leb, if◌then◌else◌,
}
use ucx_py.Exceptions.{Exn, Result, ok, err}
use ucx_py.Benchmarks.Merge.{range_from}

-- `cupy.arange(start, stop=stop)`
abbrev pub arange : ℕ → ℕ → List ℕ
arange start stop = range_from start (stop - start)

-- `cudf.DataFrame({"key": ..., "payload": ...})`: columns of one length.
pub record Columns : Type 0 where
  pub key : List ℕ
  pub payload : List ℕ

abbrev pub data_frame : List ℕ → List ℕ → Result Columns
data_frame key payload =
    if length key == length payload
    then ok (record { key = key; payload = payload })
    else err Exn.value_error

unfoldable pub generate_build : ℕ → ℕ → Result Columns
generate_build i_chunk local_size =
    let start = local_size * i_chunk in
    data_frame (arange start (start + local_size)) (arange 0 local_size)

abbrev pub max : ℕ → ℕ → ℕ
max a b = if leb a b then b else a

-- `permutation` is CuPy's, `fraction` is `int(n * frac_match)`.
module _ (permutation : List ℕ → List ℕ) (fraction : ℕ → ℕ) where
  -- The loop of step 1, from the chunk i on.
  unfoldable pub matching : ℕ → ℕ → ℕ → ℕ → ℕ → List ℕ
  matching local_size sub_local_size i_chunk i zero = []
  matching local_size sub_local_size i_chunk i (suc chunks) =
      let bgn = (local_size * i) + (sub_local_size * i_chunk) in
      take (max (fraction sub_local_size) 1) (permutation (arange bgn (bgn + sub_local_size)))
      ++ matching local_size sub_local_size i_chunk (suc i) chunks

  unfoldable pub generate_other : ℕ → ℕ → ℕ → Result Columns
  unfolding matching
  generate_other i_chunk local_size num_chunks =
      let key_array_match = matching local_size (local_size / num_chunks) i_chunk 0 num_chunks in
      let missing_size = local_size - length key_array_match in
      let start = local_size * num_chunks + local_size * i_chunk in
      data_frame (permutation (key_array_match ++ arange start (start + missing_size)))
        (arange 0 local_size)
