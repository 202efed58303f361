-- ===== src/Libs/Arr/Contiguous.antt =====
-- What contiguity and the number of bytes of an array amount to.
use ucx_py.Prelude.{
  ℕ, ◌+◌, ◌*◌, ◌%◌, ◌<◌, ◌≡◌, ◌↔◌, refl, ap, sym, ◌∙◌, Bool, true, false, some, List, [], ◌∷◌,
  arith, length, length-append, ◌/◌, ◌⊎◌, inl, inr, if◌then◌else◌,
}
use mathlib.Core.List.{reverse, reverse-reverse, reverse-cons}
use native.Mathlib.Nat.{mul_assoc, add-mul-mod_self_left}
use ucx_py.Libs.Arr.{
  Array, word_mod, strides_match, c_contiguous, f_contiguous, contiguous, nbytes, nbytes_from,
  strides_from, strides,
}

-- The strides match exactly when they are those that are computed from the shape.
match-computed :
    (s : ℕ) (shape strides : List ℕ)
    → length strides ≡ length shape
    → (strides_match s shape strides ≡ true) ↔ (strides ≡ strides_from s shape)
unfolding strides_match strides_from
match-computed s [] [] same = (λ h. refl, λ h. refl)
match-computed s [] (t ∷ ts) same = absurd (omega arith)
match-computed s (n ∷ shape) [] same = absurd (omega arith)
match-computed s (n ∷ shape) (t ∷ ts) same =
    let ih = match-computed (s * n % word_mod) shape ts (omega arith) in
    (λ h. ground (arith, ih.0), λ h. ground (arith, ih.1))

abbrev product : List ℕ → ℕ
product [] = 1
product (n ∷ ns) = n * product ns

abbrev split_word : ℕ → ℕ
split_word x = word_mod * (x / word_mod) + x % word_mod

mul-mod-word : (x y : ℕ) → (x % word_mod) * y % word_mod ≡ x * y % word_mod
mul-mod-word x y =
    let e : split_word x ≡ x = omega arith in
    let f : x * y ≡ x % word_mod * y + word_mod * (x / word_mod * y) =
      omega (arith, ap (λ (t : ℕ). t * y) e) in
    sym (
      ap (λ (t : ℕ). t % word_mod) f
      ∙ add-mul-mod_self_left (x % word_mod * y) word_mod (x / word_mod * y))

nbytes_from-product :
    (acc : ℕ) (shape : List ℕ)
    → acc < word_mod
    → nbytes_from acc shape ≡ acc * product shape % word_mod
unfolding nbytes_from
nbytes_from-product acc [] h = omega arith
nbytes_from-product acc (n ∷ shape) h =
    nbytes_from-product (acc * n % word_mod) shape (omega arith)
    ∙ mul-mod-word (acc * n) (product shape)
    ∙ ap (λ (t : ℕ). t % word_mod) (mul_assoc acc n (product shape))

-- Where the item size fits 64 bits, the number of bytes of an array is the product of the item size
-- and all dimensions modulo 2 ^ 64.
pub nbytes-product :
    (a : Array) → a.itemsize < word_mod → nbytes a ≡ a.itemsize * product a.shape_mv % word_mod
unfolding nbytes
nbytes-product a h = nbytes_from-product a.itemsize a.shape_mv h

length-reverse : (xs : List ℕ) → length (reverse xs) ≡ length xs
length-reverse [] = refl
length-reverse (x ∷ xs) =
    omega
      (arith, ap length (reverse-cons x xs), length-append (reverse xs) (x ∷ []), length-reverse xs)

-- The strides of a C-contiguous and of a Fortran-contiguous array: in each order, every stride is
-- the item size times the dimensions before it.
abbrev pub c_strides : Array → List ℕ
c_strides a = reverse (strides_from a.itemsize (reverse a.shape_mv))

abbrev pub f_strides : Array → List ℕ
f_strides a = strides_from a.itemsize a.shape_mv

-- Where strides are stored there is one for each dimension.
abbrev pub IsShaped : Array → Type 0
IsShaped a = (s : List ℕ) → a.strides_mv ≡ some s → length s ≡ length a.shape_mv

reverse_eq : (s t : List ℕ) → (reverse s ≡ t) ↔ (s ≡ reverse t)
reverse_eq s t =
    (λ h. sym (reverse-reverse s) ∙ ap reverse h, λ h. ap reverse h ∙ reverse-reverse t)

matches_reversed :
    (item : ℕ) (shape s : List ℕ)
    → length s ≡ length shape
    → (strides_match item (reverse shape) (reverse s) ≡ true)
      ↔ (s ≡ reverse (strides_from item (reverse shape)))
matches_reversed item shape s same =
    let m =
      match-computed item (reverse shape) (reverse s)
        (length-reverse s ∙ same ∙ sym (length-reverse shape)) in
    let r = reverse_eq s (strides_from item (reverse shape)) in (λ h. r.0 (m.0 h), λ h. m.1 (r.1 h))

or_iff :
    {P Q : Type 0} (b c : Bool)
    → (b ≡ true) ↔ P
    → (c ≡ true) ↔ Q
    → ((if b then true else c) ≡ true) ↔ (P ⊎ Q)
or_iff true c p q = (λ h. inl (p.0 refl), λ h. refl)
or_iff false c p q = (λ h. inr (q.0 h), λ h. elim h [ inl x ↦ cc (p.1 x) | inr y ↦ q.1 y ])

-- An array with stored strides, one for each dimension, is C-contiguous exactly when they are those
-- of the row-major order, Fortran-contiguous exactly when they are those of the column-major order,
-- and contiguous exactly when one of the two holds.
pub contiguous-strides :
    (a : Array) (s : List ℕ)
    → a.strides_mv ≡ some s
    → length s ≡ length a.shape_mv
    → ((c_contiguous a ≡ true) ↔ (strides a ≡ c_strides a))
      × ((f_contiguous a ≡ true) ↔ (strides a ≡ f_strides a))
      × ((contiguous a ≡ true) ↔ ((strides a ≡ c_strides a) ⊎ (strides a ≡ f_strides a)))
unfolding c_contiguous f_contiguous contiguous strides
contiguous-strides a s stored same =
    let c = matches_reversed a.itemsize a.shape_mv s same in
    let f = match-computed a.itemsize a.shape_mv s same in
    rw (stored, c_contiguous, f_contiguous, strides) (c, f, or_iff _ _ c f)
