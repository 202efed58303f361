-- ===== src/Libs/Arr/Typestr.antt =====
-- The itemsize by the typestr of a CUDA array, in `Array.__cinit__` of ucp/_libs/arr.pyx.
use ucx_py.Prelude.{
  ℕ, ◌+◌, ◌*◌, ◌-◌, ◌≡◌, refl, Bool, true, false, ◌&&◌, Option, none, some, List, [], ◌∷◌, drop,
  ◌==◌, if◌then◌else◌, arith, Bool-cases, inl, inr, ap, ◌∙◌,
}
use ucx_py.Exceptions.{Exn, Result, ok, err}

-- Texts as code points.
abbrev pub Typestr : Type 0
Typestr = List ℕ

abbrev pub same : Typestr → Typestr → Bool
same [] [] = true
same (a ∷ s) (b ∷ t) = a == b && same s t
same _ _ = false

abbrev pub itemsize_mapping : List (Typestr × ℕ)
itemsize_mapping =
    (124 ∷ 98 ∷ 49 ∷ [], 1)
    ∷ (124 ∷ 105 ∷ 49 ∷ [], 1)
    ∷ (124 ∷ 117 ∷ 49 ∷ [], 1)
    ∷ (60 ∷ 105 ∷ 50 ∷ [], 2)
    ∷ (62 ∷ 105 ∷ 50 ∷ [], 2)
    ∷ (60 ∷ 117 ∷ 50 ∷ [], 2)
    ∷ (62 ∷ 117 ∷ 50 ∷ [], 2)
    ∷ (60 ∷ 105 ∷ 52 ∷ [], 4)
    ∷ (62 ∷ 105 ∷ 52 ∷ [], 4)
    ∷ (60 ∷ 117 ∷ 52 ∷ [], 4)
    ∷ (62 ∷ 117 ∷ 52 ∷ [], 4)
    ∷ (60 ∷ 105 ∷ 56 ∷ [], 8)
    ∷ (62 ∷ 105 ∷ 56 ∷ [], 8)
    ∷ (60 ∷ 117 ∷ 56 ∷ [], 8)
    ∷ (62 ∷ 117 ∷ 56 ∷ [], 8)
    ∷ (60 ∷ 102 ∷ 50 ∷ [], 2)
    ∷ (62 ∷ 102 ∷ 50 ∷ [], 2)
    ∷ (60 ∷ 102 ∷ 52 ∷ [], 4)
    ∷ (62 ∷ 102 ∷ 52 ∷ [], 4)
    ∷ (60 ∷ 102 ∷ 56 ∷ [], 8)
    ∷ (62 ∷ 102 ∷ 56 ∷ [], 8)
    ∷ (60 ∷ 102 ∷ 49 ∷ 54 ∷ [], 16)
    ∷ (62 ∷ 102 ∷ 49 ∷ 54 ∷ [], 16)
    ∷ (60 ∷ 99 ∷ 56 ∷ [], 8)
    ∷ (62 ∷ 99 ∷ 56 ∷ [], 8)
    ∷ (60 ∷ 99 ∷ 49 ∷ 54 ∷ [], 16)
    ∷ (62 ∷ 99 ∷ 49 ∷ 54 ∷ [], 16)
    ∷ (60 ∷ 99 ∷ 51 ∷ 50 ∷ [], 32)
    ∷ (62 ∷ 99 ∷ 51 ∷ 50 ∷ [], 32)
    ∷ []

unfoldable pub find : Typestr → List (Typestr × ℕ) → Option ℕ
find t [] = none
find t ((k, size) ∷ rest) = let later = find t rest in if same t k then some size else later

-- `numpy_dtype(typestr).itemsize`, where NumPy is installed.
unfoldable pub itemsize : Option (Typestr → Result ℕ) → Option Typestr → Result ℕ
itemsize numpy_dtype none = err Exn.value_error
itemsize numpy_dtype (some []) = err Exn.value_error
itemsize numpy_dtype (some (c ∷ cs)) = elim (find (c ∷ cs) itemsize_mapping) [
  | some size ↦ ok size
  | none ↦ elim numpy_dtype [ none ↦ err Exn.value_error | some dtype ↦ dtype (c ∷ cs) ]
]

-- The number that decimal digits stand for.
abbrev pub decimal : ℕ → List ℕ → ℕ
decimal n [] = n
decimal n (d ∷ ds) = decimal (n * 10 + (d - 48)) ds

-- The size that a typestr names, behind the byte order and the kind.
abbrev pub named_size : Typestr → ℕ
named_size t = decimal 0 (drop 2 t)

same_lem : (s t : Typestr) → same s t ≡ true → s ≡ t
same_lem [] [] h = refl
same_lem [] (b ∷ t) h = absurd (ground arith)
same_lem (a ∷ s) [] h = absurd (ground arith)
same_lem (a ∷ s) (b ∷ t) h = ground (arith, same_lem s t)

named : List (Typestr × ℕ) → Bool
named [] = true
named ((k, size) ∷ rest) = named_size k == size && named rest

named_table : named itemsize_mapping ≡ true
unfolding named
named_table = refl

find_lem :
    (t : Typestr) (table : List (Typestr × ℕ)) (size : ℕ)
    → named table ≡ true
    → find t table ≡ some size
    → named_size t ≡ size
unfolding find named
find_lem t [] size h e = absurd (ground arith)
find_lem t ((k, n) ∷ rest) size h e = elim (Bool-cases (same t k)) [
  | inl eq ↦ ap named_size (same_lem t k eq) ∙ ground (arith, h, e, eq)
  | inr other ↦ find_lem t rest size (ground (arith, h)) (ground (arith, e, other))
]

-- Every itemsize that the table gives is the one that the typestr names.
pub itemsize_mapping-named_size :
    (t : Typestr) (size : ℕ) → find t itemsize_mapping ≡ some size → named_size t ≡ size
itemsize_mapping-named_size t size e = find_lem t itemsize_mapping size named_table e
