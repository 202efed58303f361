-- ===== src/Libs/Arr.antt =====
-- ucp/_libs/arr.pyx: class Array, the shape of a buffer. A Py_ssize_t is the bit pattern of its 64
-- bits, a number below 2 ^ 64: products wrap, and two values are equal as patterns are.
pub mod Contiguous
pub mod Typestr
mod Tests
use ucx_py.Prelude.{
  ℕ, zero, suc, ◌*◌, ◌%◌, ◌^◌, Bool, true, false, not, ◌&&◌, ◌||◌, Option, none, some, List, [],
  ◌∷◌, ◌++◌, ◌==◌, ltb, if◌then◌else◌, length,
}
use mathlib.Core.List.{reverse}
use ucx_py.Exceptions.{Exn, Result, ok, err}

abbrev pub word_mod : ℕ
word_mod = 2 ^ 64

-- `shape_mv` has `ndim` entries, and `strides_mv`, where it is not None, as many.
pub record Array : Type 0 where
  pub ptr : ℕ
  pub readonly : Bool
  pub cuda : Bool
  pub itemsize : ℕ
  pub shape_mv : List ℕ
  pub strides_mv : Option (List ℕ)

abbrev pub ndim : Array → ℕ
ndim a = length a.shape_mv

-- The loop of `_c_contiguous` and `_f_contiguous` over the dimensions in the order it goes through
-- them, with `s` the stride that is expected. The two arrays have one length.
unfoldable pub strides_match : ℕ → List ℕ → List ℕ → Bool
strides_match s (n ∷ shape) (t ∷ strides) =
    let rest = strides_match (s * n % word_mod) shape strides in if s == t then rest else false
strides_match s _ _ = true

-- From the last dimension to the first.
unfoldable pub c_contiguous : Array → Bool
c_contiguous a = elim a.strides_mv [
  | none ↦ true
  | some strides ↦ strides_match a.itemsize (reverse a.shape_mv) (reverse strides)
]

unfoldable pub f_contiguous : Array → Bool
f_contiguous a = elim a.strides_mv [
  | none ↦ not (ltb 1 (ndim a))
  | some strides ↦ strides_match a.itemsize a.shape_mv strides
]

unfoldable pub contiguous : Array → Bool
unfolding c_contiguous f_contiguous
contiguous a = if c_contiguous a then true else f_contiguous a

nbytes_from : ℕ → List ℕ → ℕ
nbytes_from acc [] = acc
nbytes_from acc (n ∷ shape) = nbytes_from (acc * n % word_mod) shape

unfoldable pub nbytes : Array → ℕ
unfolding nbytes_from
nbytes a = nbytes_from a.itemsize a.shape_mv

-- The strides that the property computes where none are stored, from the last dimension on.
unfoldable pub strides_from : ℕ → List ℕ → List ℕ
strides_from s [] = []
strides_from s (n ∷ shape) = s ∷ strides_from (s * n % word_mod) shape

unfoldable pub strides : Array → List ℕ
unfolding strides_from
strides a = elim a.strides_mv [
  | none ↦ reverse (strides_from a.itemsize (reverse a.shape_mv))
  | some s ↦ s
]

-- `__cuda_array_interface__` of an object: what `__cinit__` reads of it. `type_size` is the
-- itemsize by the typestr, or what its lookup raises.
pub record CudaInterface : Type 0 where
  pub mask : Bool
  pub address : ℕ
  pub read_only : Bool
  pub type_size : Result ℕ
  pub shape : List ℕ
  pub stride : Option (List ℕ)

cuda_array : CudaInterface → ℕ → Option (List ℕ) → Array
cuda_array i size strides = record {
  ptr = i.address;
  readonly = i.read_only;
  cuda = true;
  itemsize = size;
  shape_mv = i.shape;
  strides_mv = strides;
}

-- The strides are read only of an array with dimensions.
checked_strides : List ℕ → Option (List ℕ) → Result (Option (List ℕ))
checked_strides [] stride = ok none
checked_strides (n ∷ shape) none = ok none
checked_strides (n ∷ shape) (some s) =
    if length s == length (n ∷ shape) then ok (some s) else err Exn.value_error

unfoldable pub from_cuda : CudaInterface → Result Array
unfolding cuda_array checked_strides
from_cuda i = if i.mask then err Exn.not_implemented_error else (elim i.type_size [
  | err x ↦ err x
  | ok size ↦ elim (checked_strides i.shape i.stride) [
    | err x ↦ err x
    | ok s ↦ ok (cuda_array i size s)
  ]
])

-- A Py_buffer, as PyMemoryView_GET_BUFFER gives it; `is_c_contiguous` is PyBuffer_IsContiguous.
pub record PyBuffer : Type 0 where
  pub suboffsets : Bool
  pub buf : ℕ
  pub is_readonly : Bool
  pub item : ℕ
  pub dims : List ℕ
  pub steps : List ℕ
  pub is_c_contiguous : Bool

buffer_strides : PyBuffer → List ℕ → Option (List ℕ)
buffer_strides b [] = none
buffer_strides b (n ∷ dims) = if b.is_c_contiguous then none else some b.steps

unfoldable pub from_buffer : PyBuffer → Result Array
unfolding buffer_strides
from_buffer b =
    if b.suboffsets
    then err Exn.not_implemented_error
    else ok (record {
      ptr = b.buf;
      readonly = b.is_readonly;
      cuda = false;
      itemsize = b.item;
      shape_mv = b.dims;
      strides_mv = buffer_strides b b.dims;
    })
