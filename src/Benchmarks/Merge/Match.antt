-- ===== src/Benchmarks/Merge/Match.antt =====
-- Which keys of a chunk have a match in the build table, and which do not.
use mathlib.Core.List.{Permᴰ}
use native.Mathlib.Nat.{mul-le-mul_left, mul-div-le, mul-suc, mul_comm, suc-mul, add_comm}
use ucx_py.Prelude.{
  ℕ, zero, suc, ◌+◌, ◌-◌, ◌*◌, ◌/◌, ◌≤◌, ◌<◌, ◌≡◌, refl, ap, ap₂, sym, ◌∙◌, List, [], ◌∷◌, ◌++◌,
  length, take, arith, leb, if◌then◌else◌, All, length-append,
}
use ucx_py.Exceptions.{ok}
use ucx_py.Benchmarks.Merge.{range_from, range}
use ucx_py.Benchmarks.Merge.Chunks.{arange, data_frame, max, matching, generate_other}

abbrev pub Below : ℕ → List ℕ → Type 0
Below b keys = All (λ (k : ℕ). k < b) keys

abbrev pub From : ℕ → List ℕ → Type 0
From b keys = All (λ (k : ℕ). b ≤ k) keys

length-Permᴰ : {xs ys : List ℕ} → Permᴰ xs ys → length xs ≡ length ys
length-Permᴰ Permᴰ.nil = refl
length-Permᴰ (Permᴰ.cons e p) = ap suc (length-Permᴰ p)
length-Permᴰ (Permᴰ.swap e e') = refl
length-Permᴰ (Permᴰ.trans p q) = length-Permᴰ p ∙ length-Permᴰ q

Below-Permᴰ : (b : ℕ) {xs ys : List ℕ} → Permᴰ xs ys → Below b ys → Below b xs
Below-Permᴰ b Permᴰ.nil h = tt
Below-Permᴰ b (Permᴰ.cons e p) (h, hs) = (omega (arith, e, h), Below-Permᴰ b p hs)
Below-Permᴰ b (Permᴰ.swap e e') (h, (h', hs)) = (omega (arith, e, h'), (omega (arith, e', h), hs))
Below-Permᴰ b (Permᴰ.trans p q) h = Below-Permᴰ b p (Below-Permᴰ b q h)

Below-take : (b n : ℕ) (xs : List ℕ) → Below b xs → Below b (take n xs)
Below-take b zero xs h = tt
Below-take b (suc n) [] h = tt
Below-take b (suc n) (x ∷ xs) (h, hs) = (h, Below-take b n xs hs)

Below-append : (b : ℕ) (xs ys : List ℕ) → Below b xs → Below b ys → Below b (xs ++ ys)
Below-append b [] ys h h' = h'
Below-append b (x ∷ xs) ys (h, hs) h' = (h, Below-append b xs ys hs h')

Below-range_from : (b k n : ℕ) → k + n ≤ b → Below b (range_from k n)
Below-range_from b k zero h = tt
Below-range_from b k (suc n) h = (omega (arith, h), Below-range_from b (suc k) n (omega (arith, h)))

From-range_from : (b k n : ℕ) → b ≤ k → From b (range_from k n)
From-range_from b k zero h = tt
From-range_from b k (suc n) h = (h, From-range_from b (suc k) n (omega (arith, h)))

length-range_from : (k n : ℕ) → length (range_from k n) ≡ n
length-range_from k zero = refl
length-range_from k (suc n) = ap suc (length-range_from (suc k) n)

abbrev pub min : ℕ → ℕ → ℕ
min a b = if leb a b then a else b

length-take : (n : ℕ) (xs : List ℕ) → length (take n xs) ≡ min n (length xs)
length-take zero xs = ground arith
length-take (suc n) [] = ground arith
length-take (suc n) (x ∷ xs) = ground (arith, length-take n xs)

min_le : (a b : ℕ) → min a b ≤ b
min_le a b = ground arith

data_frame_ok :
    (key payload : List ℕ)
    → length key ≡ length payload
    → data_frame key payload ≡ ok (record { key = key; payload = payload })
data_frame_ok key payload h = ground arith

-- The end of a slice of the chunk i is no key beyond the chunks.
slice_end : (l s c i n : ℕ) → s * n ≤ l → c < n → i < n → (l * i) + (s * c) + s ≤ l * n
slice_end l s c i n h hc hi =
    omega (arith, h, mul-suc s c, mul-suc l i, mul-le-mul_left s hc, mul-le-mul_left l hi)

module _ (permutation : List ℕ → List ℕ) (fraction : ℕ → ℕ) where
  matching_lem :
      (l s c n i k : ℕ)
      → ((xs : List ℕ) → Permᴰ (permutation xs) xs)
      → s * n ≤ l
      → c < n
      → i + k ≤ n
      → Below (l * n) (matching permutation fraction l s c i k)
        × (length (matching permutation fraction l s c i k) ≡ k * min (max (fraction s) 1) s)
  unfolding matching
  matching_lem l s c n i zero perm h hc hi = (tt, omega arith)
  matching_lem l s c n i (suc k) perm h hc hi =
      let bgn = (l * i) + (s * c) in
      let keys = arange bgn (bgn + s) in
      let use_ = max (fraction s) 1 in
      let size : length keys ≡ s = length-range_from bgn _ ∙ omega arith in
      let (below, rest) = matching_lem l s c n (suc i) k perm h hc (omega (arith, hi)) in
      let first : Below (l * n) (take use_ (permutation keys)) =
        Below-take (l * n) use_ (permutation keys) (
          Below-Permᴰ (l * n) (perm keys) (
            Below-range_from (l * n) bgn _
              (omega (arith, slice_end l s c i n h hc (omega (arith, hi)))))) in
      (
        Below-append (l * n) (take use_ (permutation keys)) _ first below,
        length-append (take use_ (permutation keys)) (matching permutation fraction l s c (suc i) k)
            ∙ ap₂ (λ x y. x + y)
                (length-take use_ (permutation keys)
                  ∙ ap (min use_) (length-Permᴰ (perm keys) ∙ size))
                rest
            ∙ add_comm (min use_ s) (k * min use_ s)
            ∙ sym (suc-mul k (min use_ s)),
      )

  -- Where `permutation` permutes, each chunk of the other table has as many rows as it is to have;
  -- its keys are those with a match in the build table, all below its end, of the same number from
  -- each of its chunks, and others beyond that end.
  pub generate_other-matches :
      (i_chunk local_size num_chunks : ℕ)
      → ((xs : List ℕ) → Permᴰ (permutation xs) xs)
      → i_chunk < num_chunks
      → (key match_ rest : List ℕ) × (generate_other permutation fraction i_chunk local_size
            num_chunks
          ≡ ok (record { key = key; payload = range local_size }))
        × Permᴰ key (match_ ++ rest)
        × Below (local_size * num_chunks) match_
        × From (local_size * num_chunks) rest
        × (length match_
            ≡ num_chunks
              * min (max (fraction (local_size / num_chunks)) 1) (local_size / num_chunks))
        × (length key ≡ local_size)
  unfolding generate_other
  generate_other-matches c l n perm hc =
      let s = l / n in
      let (below, size) =
        matching_lem l s c n 0 n perm (omega (arith, mul-div-le l n, mul_comm n s)) hc
          (omega arith) in
      let m = matching permutation fraction l s c 0 n in
      let start = l * n + l * c in
      let rest = arange start (start + (l - length m)) in
      let key = permutation (m ++ rest) in
      let few : length m ≤ l =
        omega (arith, size, mul-le-mul_left n (min_le (max (fraction s) 1) s), mul-div-le l n) in
      let all_ : length key ≡ l =
        length-Permᴰ (perm (m ++ rest))
        ∙ length-append m rest
        ∙ omega (arith, length-range_from start (start + (l - length m) - start), few) in
      (
        key,
        m,
        rest,
        data_frame_ok key (arange 0 l) (all_ ∙ sym (length-range_from 0 (l - 0) ∙ omega arith))
            ∙ ap (λ p. ok (record { key = key; payload = p })) (ap (range_from 0) (omega arith)),
        perm (m ++ rest),
        below,
        From-range_from (l * n) start _ (omega arith),
        size,
        all_,
      )
