-- ===== src/Benchmarks/Merge/Sums.antt =====
-- Sums over the ranks.
use mathlib.Core.List.{Permᴰ}
use ucx_py.Prelude.{
  ℕ, zero, suc, ◌+◌, ◌<◌, ◌≡◌, refl, ap, ◌∙◌, Bool, ◌&&◌, some, List, [], ◌∷◌, map, arith, ◌==◌,
  leb, ltb, if◌then◌else◌, get_elem?,
}
use ucx_py.Benchmarks.Merge.{range_from, range}
use ucx_py.Benchmarks.Merge.Laws.{sum, total}

pub sum-Permᴰ : (f : ℕ → ℕ) {xs ys : List ℕ} → Permᴰ xs ys → sum f xs ≡ sum f ys
sum-Permᴰ f Permᴰ.nil = refl
sum-Permᴰ f (Permᴰ.cons e p) = omega (arith, ap f e, sum-Permᴰ f p)
sum-Permᴰ f (Permᴰ.swap e e') = omega (arith, ap f e, ap f e')
sum-Permᴰ f (Permᴰ.trans p q) = sum-Permᴰ f p ∙ sum-Permᴰ f q

pub total-map :
    {D : Type 0} (g : D → ℕ) (f : ℕ → D) (xs : List ℕ) → total g (map f xs) ≡ sum (λ j. g (f j)) xs
total-map g f [] = refl
total-map g f (x ∷ xs) = omega (arith, total-map g f xs)

pub sum_same : (f g : ℕ → ℕ) (xs : List ℕ) → ((j : ℕ) → f j ≡ g j) → sum f xs ≡ sum g xs
sum_same f g [] h = refl
sum_same f g (x ∷ xs) h = omega (arith, h x, sum_same f g xs h)

-- A sum of what counts only under a test.
pub sum_if :
    (b : Bool) (f : ℕ → ℕ) (xs : List ℕ)
    → sum (λ j. if b then f j else 0) xs ≡ (if b then sum f xs else 0)
sum_if b f [] = ground arith
sum_if b f (x ∷ xs) = ground (arith, sum_if b f xs)

sum_select_from :
    (b x k n : ℕ)
    → sum (λ i. if b == i then x else 0) (range_from k n)
      ≡ (if leb k b && ltb b (k + n) then x else 0)
sum_select_from b x k zero = ground arith
sum_select_from b x k (suc n) = ground (arith, sum_select_from b x (suc k) n)

-- Exactly one rank is the one looked for.
pub sum_select : (b x n : ℕ) → b < n → sum (λ i. if b == i then x else 0) (range n) ≡ x
sum_select b x n h = ground (arith, sum_select_from b x 0 n)

get_elem?_from :
    {D : Type 0} (f : ℕ → D) (k n i : ℕ)
    → i < n
    → get_elem? (map f (range_from k n)) i ≡ some (f (k + i))
get_elem?_from f k zero i h = absurd (omega (arith, h))
get_elem?_from f k (suc n) zero h = ap (λ j. some (f j)) (omega arith)
get_elem?_from f k (suc n) (suc i) h =
    get_elem?_from f (suc k) n i (omega (arith, h)) ∙ ap (λ j. some (f j)) (omega arith)

pub get_elem?-range :
    {D : Type 0} (f : ℕ → D) (n i : ℕ) → i < n → get_elem? (map f (range n)) i ≡ some (f i)
get_elem?-range f n i h = get_elem?_from f 0 n i h ∙ ap (λ j. some (f j)) (omega arith)
