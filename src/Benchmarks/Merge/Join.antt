-- ===== src/Benchmarks/Merge/Join.antt =====
-- The frames that the workers hold after a distributed join are together the join of all frames.
use mathlib.Core.List.{Permᴰ}
use ucx_py.Prelude.{
  ℕ, zero, suc, ◌+◌, ◌*◌, ◌≤◌, ◌<◌, true, false, ◌≡◌, refl, ap, ap₂, sym, ◌∙◌, Bool, some, List, [],
  ◌∷◌, ◌++◌, map, arith, ◌==◌, if◌then◌else◌, get_elem?, All,
}
use mathlib.Core.Path.{fun_ext}
use mathlib.Core.List.{append-nil}
use ucx_py.Benchmarks.Merge.{
  Cudf, Channel, range_from, range, send_df, send_bin, exchange_and_concat_bins, distributed_join,
  wire,
}
use ucx_py.Benchmarks.Merge.Laws.{Row, IsCudf, IsSendable, sum}
use ucx_py.Benchmarks.Merge.Frames.{recv_bins-send_df}
use ucx_py.Benchmarks.Merge.Sums.{
  sum-Permᴰ, total-map, sum_same, sum_if, sum_select, get_elem?-range,
}

-- The other workers of each one, in the order of its endpoints.
abbrev pub IsPeers : ℕ → (ℕ → List ℕ) → Type 0
IsPeers n peers = (i : ℕ) → i < n → Permᴰ (i ∷ peers i) (range n)

product_if :
    (b : Bool) (x y : ℕ) → (if b then x else 0) * (if b then y else 0) ≡ (if b then x * y else 0)
product_if true x y = refl
product_if false x y = omega arith

module _ {D H : Type 0} (lib : Cudf D H) (laws : IsCudf lib) where
  bin_at :
      (n i : ℕ) (d : D) → i < n → get_elem? (lib.partition_by_hash d n) i ≡ some (laws.slice d n i)
  bin_at n i d h = rw (laws.partition d n) (get_elem?-range (laws.slice d n) n i h)

  send_bin_at :
      (n i : ℕ) (d : D)
      → i < n
      → send_bin lib (lib.partition_by_hash d n) i ≡ send_df lib (laws.slice d n i)
  unfolding send_bin
  send_bin_at n i d h = rw (send_bin, bin_at n i d h) refl

  -- What a rank gathers of the tables of some workers.
  abbrev gathered : ℕ → ℕ → (ℕ → D) → List ℕ → D
  gathered n i tables ranks = lib.concat (map (λ j. laws.slice (tables j) n i) ranks)

  exchanged :
      (n i : ℕ) (tables : ℕ → D) (rest : ℕ → Channel) (ranks : List ℕ)
      → i < n
      → ((j : ℕ) → IsSendable lib (laws.slice (tables j) n i))
      → exchange_and_concat_bins lib i
          (lib.partition_by_hash (tables i) n)
          (map (λ j. send_bin lib (lib.partition_by_hash (tables j) n) i ++ rest j) ranks)
        ≡ some (gathered n i tables (i ∷ ranks), map rest ranks)
  unfolding exchange_and_concat_bins
  exchanged n i tables rest ranks h small =
      rw
        (
          bin_at n i (tables i) h,
          fun_ext (λ (j : ℕ). ap (λ m. m ++ rest j) (send_bin_at n i (tables j) h)),
          recv_bins-send_df lib laws (λ j. laws.slice (tables j) n i) rest ranks small,
        )
        refl

  exchanged_last :
      (n i : ℕ) (tables : ℕ → D) (ranks : List ℕ)
      → i < n
      → ((j : ℕ) → IsSendable lib (laws.slice (tables j) n i))
      → exchange_and_concat_bins lib i
          (lib.partition_by_hash (tables i) n)
          (map (λ j. send_bin lib (lib.partition_by_hash (tables j) n) i) ranks)
        ≡ some (gathered n i tables (i ∷ ranks), map (λ j. []) ranks)
  exchanged_last n i tables ranks h small =
      ap (λ f. exchange_and_concat_bins lib i (lib.partition_by_hash (tables i) n) (map f ranks))
        (fun_ext
          (λ (j : ℕ). sym (append-nil (send_bin lib (lib.partition_by_hash (tables j) n) i))))
      ∙ exchanged n i tables (λ j. []) ranks h small

  gathered-count :
      (n i : ℕ) (tables : ℕ → D) (ranks : List ℕ) (r : Row)
      → laws.count r (gathered n i tables ranks)
        ≡ (if laws.hash n r.key == i then sum (λ j. laws.count r (tables j)) ranks else 0)
  gathered-count n i tables ranks r =
      laws.concat-count (map (λ j. laws.slice (tables j) n i) ranks) r
      ∙ total-map (laws.count r) (λ j. laws.slice (tables j) n i) ranks
      ∙ sum_same _ _ ranks (λ j. laws.slice-count (tables j) n i r)
      ∙ sum_if (laws.hash n r.key == i) (λ j. laws.count r (tables j)) ranks

  -- Every bin of every table can be sent.
  abbrev pub AllSendable : ℕ → (ℕ → D) → Type 0
  AllSendable n tables = (i j : ℕ) → IsSendable lib (laws.slice (tables j) n i)

  -- What a worker holds in the end.
  abbrev pub held : ℕ → (ℕ → D) → (ℕ → D) → (ℕ → List ℕ) → ℕ → D
  held n left right peers i =
      lib.merge (gathered n i left (i ∷ peers i)) (gathered n i right (i ∷ peers i))

  distributed_join_held :
      (n : ℕ) (left right : ℕ → D) (peers : ℕ → List ℕ) (i : ℕ)
      → i < n
      → AllSendable n left
      → AllSendable n right
      → distributed_join lib n i (left i) (right i) (map (wire lib n left right i) (peers i))
        ≡ some (held n left right peers i)
  unfolding distributed_join wire
  distributed_join_held n left right peers i h small small' =
      rw
        (
          exchanged n i left (λ j. send_bin lib (lib.partition_by_hash (right j) n) i) (peers i) h
              (small i),
          exchanged_last n i right (peers i) h (small' i),
        )
        refl

  held-count :
      (n : ℕ) (left right : ℕ → D) (peers : ℕ → List ℕ) (i : ℕ) (r : Row)
      → i < n
      → IsPeers n peers
      → laws.count r (held n left right peers i) ≡ (
          if laws.hash n r.key == i
          then sum (λ j. laws.count r (left j)) (range n)
            * sum (λ j. laws.count r (right j)) (range n)
          else 0)
  held-count n left right peers i r h all_ =
      laws.merge-count _ _ r
      ∙ ap₂ (λ x y. x * y) (gathered-count n i left (i ∷ peers i) r)
          (gathered-count n i right (i ∷ peers i) r)
      ∙ rw
          (
            sum-Permᴰ (λ j. laws.count r (left j)) (all_ i h),
            sum-Permᴰ (λ j. laws.count r (right j)) (all_ i h),
          )
          (product_if (laws.hash n r.key == i) _ _)

  joined-count :
      (n : ℕ) (left right : ℕ → D) (r : Row)
      → laws.count r
          (lib.merge (lib.concat (map left (range n))) (lib.concat (map right (range n))))
        ≡ sum (λ j. laws.count r (left j)) (range n) * sum (λ j. laws.count r (right j)) (range n)
  joined-count n left right r =
      laws.merge-count _ _ r
      ∙ ap₂ (λ x y. x * y)
          (laws.concat-count (map left (range n)) r ∙ total-map (laws.count r) left (range n))
          (laws.concat-count (map right (range n)) r ∙ total-map (laws.count r) right (range n))

  each_held :
      (n : ℕ) (left right : ℕ → D) (peers : ℕ → List ℕ) (k m : ℕ)
      → k + m ≤ n
      → AllSendable n left
      → AllSendable n right
      → All
          (λ i.
            distributed_join lib n i (left i) (right i) (map (wire lib n left right i) (peers i))
            ≡ some (held n left right peers i))
          (range_from k m)
  each_held n left right peers k zero h small small' = tt
  each_held n left right peers k (suc m) h small small' = (
    distributed_join_held n left right peers k (omega (arith, h)) small small',
    each_held n left right peers (suc k) m (omega (arith, h)) small small',
  )

  sum_held :
      (n : ℕ) (left right : ℕ → D) (peers : ℕ → List ℕ) (r : Row) (k m : ℕ)
      → k + m ≤ n
      → IsPeers n peers
      → sum (λ i. laws.count r (held n left right peers i)) (range_from k m)
        ≡ sum
            (λ i.
              if laws.hash n r.key == i
              then sum (λ j. laws.count r (left j)) (range n)
                * sum (λ j. laws.count r (right j)) (range n)
              else 0)
            (range_from k m)
  sum_held n left right peers r k zero h all_ = refl
  sum_held n left right peers r k (suc m) h all_ = omega (
    arith,
    held-count n left right peers k r (omega (arith, h)) all_,
    sum_held n left right peers r (suc k) m (omega (arith, h)) all_,
  )

  -- Where data frames behave by the laws, every bin can be sent and every worker has an endpoint
  -- for each other one, `distributed_join` ends at each of n > 0 workers, and each row stands in
  -- their frames together as often as in the merge of all left tables with all right tables.
  pub distributed_join-merge :
      (n : ℕ) (left right : ℕ → D) (peers : ℕ → List ℕ) (r : Row)
      → 0 < n
      → IsPeers n peers
      → AllSendable n left
      → AllSendable n right
      → All
          (λ i.
            distributed_join lib n i (left i) (right i) (map (wire lib n left right i) (peers i))
            ≡ some (held n left right peers i))
          (range n)
        × (sum (λ i. laws.count r (held n left right peers i)) (range n)
            ≡ laws.count r
                (lib.merge (lib.concat (map left (range n))) (lib.concat (map right (range n)))))
  distributed_join-merge n left right peers r some_ all_ small small' = (
    each_held n left right peers 0 n (omega arith) small small',
    sum_held n left right peers r 0 n (omega arith) all_
        ∙ sum_select (laws.hash n r.key) _ n (laws.hash_lt n r.key some_)
        ∙ sym (joined-count n left right r),
  )
