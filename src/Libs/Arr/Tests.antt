-- ===== src/Libs/Arr/Tests.antt =====
-- Arrays, and the theorems about them at concrete inputs.
use ucx_py.Prelude.{◌≡◌, ◌↔◌, ◌⊎◌, refl, true, false, some, [], ◌∷◌}
use ucx_py.Libs.Arr.{Array, c_contiguous, f_contiguous, contiguous, strides}
use ucx_py.Libs.Arr.Contiguous.{c_strides, f_strides, contiguous-strides}

-- Two rows of three numbers of eight bytes, row by row.
abbrev rows : Array
rows = record {
  ptr = 4096;
  readonly = false;
  cuda = false;
  itemsize = 8;
  shape_mv = 2 ∷ 3 ∷ [];
  strides_mv = some (24 ∷ 8 ∷ []);
}

contiguous-strides_example :
    ((c_contiguous rows ≡ true) ↔ (strides rows ≡ c_strides rows))
    × ((f_contiguous rows ≡ true) ↔ (strides rows ≡ f_strides rows))
    × ((contiguous rows ≡ true)
        ↔ ((strides rows ≡ c_strides rows) ⊎ (strides rows ≡ f_strides rows)))
contiguous-strides_example = contiguous-strides rows (24 ∷ 8 ∷ []) refl refl
