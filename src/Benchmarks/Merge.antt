-- ===== src/Benchmarks/Merge.antt =====
-- benchmarks/cudf-merge.py: data frames over endpoints, and the join that all workers make together.
-- What cuDF, NumPy and pickle do is the interface `Cudf`.
pub mod Laws
pub mod Frames
pub mod Sums
pub mod Join
pub mod Barrier
pub mod Chunks
pub mod Match
mod Tests
use ucx_py.Prelude.{
  and_then, ℕ, zero, suc, ◌+◌, Option, none, some, List, [], ◌∷◌, ◌++◌, map, length, get_elem?,
  ◌==◌, if◌then◌else◌,
}
use ucx_py.Exceptions.{Result, ok, err}
use ucx_py.Struct.{Bytes, packed, unpack}

-- D are the data frames, H the headers that `serialize` gives.
pub record Cudf (D H : Type 0) : Type 0 where
  pub serialize : D → H × List Bytes
  pub deserialize : H → List Bytes → D
  pub dumps : H × List ℕ → Bytes
  pub loads : Bytes → Option (H × List ℕ)
  pub partition_by_hash : D → ℕ → List D
  pub concat : List D → D
  pub merge : D → D → D

-- The messages on their way from one worker to another, the first one first.
abbrev pub Channel : Type 0
Channel = List Bytes

-- `ep.recv(buffer)`; `none` is that nothing ever comes, or that the message has another length.
unfoldable pub recv : ℕ → Channel → Option (Bytes × Channel)
recv nbytes [] = none
recv nbytes (m ∷ c) = if length m == nbytes then some (m, c) else none

only : Result (List ℕ) → Option ℕ
only (ok (n ∷ [])) = some n
only _ = none

-- An array of one unsigned 64-bit number.
unfoldable pub recv_number : Channel → Option (ℕ × Channel)
unfolding only
recv_number c = and_then (recv 8 c) (λ (m, c'). and_then (only (unpack 1 m)) (λ n. some (n, c')))

unfoldable pub recv_frames : List ℕ → Channel → Option (List Bytes × Channel)
recv_frames [] c = some ([], c)
recv_frames (nbytes ∷ sizes) c =
    and_then (recv nbytes c)
      (λ (m, c'). and_then (recv_frames sizes c') (λ (ms, c''). some (m ∷ ms, c'')))

abbrev pub range_from : ℕ → ℕ → List ℕ
range_from k zero = []
range_from k (suc n) = k ∷ range_from (suc k) n

abbrev pub range : ℕ → List ℕ
range n = range_from 0 n

module _ {D H : Type 0} (lib : Cudf D H) where
  -- The messages that `send_df` sends.
  unfoldable pub send_df : D → List Bytes
  send_df df =
      let (header, frames) = lib.serialize df in
      let bytes = lib.dumps (header, map length frames) in
      packed (length bytes ∷ []) ∷ bytes ∷ frames

  unfoldable pub recv_df : Channel → Option (D × Channel)
  recv_df c = and_then (recv_number c) (λ (nbytes, c1). and_then (recv nbytes c1) (λ (bytes, c2).
      and_then (lib.loads bytes) (λ (header, sizes).
        and_then (recv_frames sizes c2)
          (λ (frames, c3). some (lib.deserialize header frames, c3)))))

  -- What `send_bins` sends to a worker; with a missing bin it raises and sends nothing.
  unfoldable pub send_bin : List D → ℕ → List Bytes
  send_bin bins rank = elim (get_elem? bins rank) [ none ↦ [] | some df ↦ send_df df ]

  -- `recv_bins`, from the endpoints in their order.
  unfoldable pub recv_bins : List Channel → Option (List D × List Channel)
  recv_bins [] = some ([], [])
  recv_bins (c ∷ cs) =
      and_then (recv_df c)
        (λ (df, c'). and_then (recv_bins cs) (λ (dfs, cs'). some (df ∷ dfs, c' ∷ cs')))

  unfoldable pub exchange_and_concat_bins : ℕ → List D → List Channel → Option (D × List Channel)
  exchange_and_concat_bins rank bins eps =
      and_then (get_elem? bins rank)
        (λ own. and_then (recv_bins eps) (λ (dfs, eps'). some (lib.concat (own ∷ dfs), eps')))

  unfoldable pub distributed_join : ℕ → ℕ → D → D → List Channel → Option D
  distributed_join n_chunks rank left_table right_table eps =
      and_then (exchange_and_concat_bins rank (lib.partition_by_hash left_table n_chunks) eps)
        (λ (left_df, eps').
          and_then (exchange_and_concat_bins rank (lib.partition_by_hash right_table n_chunks) eps')
            (λ (right_df, eps''). some (lib.merge left_df right_df)))

  -- What comes to a worker from another one: the bins of both tables, one after the other.
  unfoldable pub wire : ℕ → (ℕ → D) → (ℕ → D) → ℕ → ℕ → Channel
  wire n_chunks left right rank peer =
      send_bin (lib.partition_by_hash (left peer) n_chunks) rank
      ++ send_bin (lib.partition_by_hash (right peer) n_chunks) rank
