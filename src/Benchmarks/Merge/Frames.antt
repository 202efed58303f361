-- ===== src/Benchmarks/Merge/Frames.antt =====
-- A data frame that is sent is received as it was.
use ucx_py.Prelude.{true, ℕ, ◌≡◌, refl, some, List, [], ◌∷◌, ◌++◌, map, length, arith, ◌==◌}
use ucx_py.Struct.{Bytes, IsU64, packed, length-packed, unpack-packed}
use ucx_py.Benchmarks.Merge.{
  Cudf, Channel, recv, recv_number, recv_frames, send_df, recv_df, recv_bins,
}
use ucx_py.Benchmarks.Merge.Laws.{IsCudf, IsSendable}

==_refl : (n : ℕ) → (n == n) ≡ true
==_refl n = ground arith

recv_next : (m : Bytes) (c : Channel) → recv (length m) (m ∷ c) ≡ some (m, c)
unfolding recv
recv_next m c = rw (==_refl (length m)) refl

recv_number_next : (n : ℕ) (c : Channel) → IsU64 n → recv_number (packed (n ∷ []) ∷ c) ≡ some (n, c)
unfolding recv_number recv
recv_number_next n c bound = rw (length-packed (n ∷ []), unpack-packed (n ∷ []) (bound, tt)) refl

recv_frames_all :
    (ms : List Bytes) (c : Channel) → recv_frames (map length ms) (ms ++ c) ≡ some (ms, c)
unfolding recv_frames
recv_frames_all [] c = refl
recv_frames_all (m ∷ ms) c = rw (recv_next m (ms ++ c), recv_frames_all ms c) refl

module _ {D H : Type 0} (lib : Cudf D H) (laws : IsCudf lib) where
  -- A frame whose header has a length of 64 bits is received as it was, and nothing else is taken
  -- from the channel.
  pub recv_df-send_df :
      (d : D) (c : Channel) → IsSendable lib d → recv_df lib (send_df lib d ++ c) ≡ some (d, c)
  unfolding recv_df send_df
  recv_df-send_df d c small =
      let (h, frames) = lib.serialize d in
      let sizes = map length frames in
      rw
        (
          recv_number_next (length (lib.dumps (h, sizes))) _ small,
          recv_next (lib.dumps (h, sizes)) (frames ++ c),
          laws.loads-dumps h sizes,
          recv_frames_all frames c,
          laws.deserialize-serialize d,
        )
        refl

  pub recv_bins-send_df :
      (f : ℕ → D) (rest : ℕ → Channel) (ranks : List ℕ)
      → ((j : ℕ) → IsSendable lib (f j))
      → recv_bins lib (map (λ j. send_df lib (f j) ++ rest j) ranks)
        ≡ some (map f ranks, map rest ranks)
  unfolding recv_bins
  recv_bins-send_df f rest [] small = refl
  recv_bins-send_df f rest (j ∷ ranks) small =
      rw (recv_df-send_df (f j) (rest j) (small j), recv_bins-send_df f rest ranks small) refl
