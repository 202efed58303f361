-- ===== src/Libs/Rma/Posting.antt =====
-- `put_nb` and `get_nb` of ucp/_libs/ucx_rma.pyx, methods and functions: what they hand to UCX and to
-- `_handle_status`; the parameters of `alloc` and `map` of ucx_memory_handle.pyx; and the making of a
-- remote key in ucx_rkey.pyx.
use ucx_py.Prelude.{
  ◌&&◌, ltb, Bool-cases, inl, inr, ℕ, ◌+◌, ◌≤◌, ◌≡◌, refl, Bool, true, false, Option, none, some,
  arith,
}
use ucx_py.Prelude.Int.{ℤ, pos}
use ucx_py.Exceptions.{Result, ok, err, ◌>>=◌}
use ucx_py.Libs.Ucs.{UcsStatus, assert_ucs_status}
use ucx_py.Libs.Arr.{word_mod, Array, nbytes}
use ucx_py.Libs.UcxObject.{Object, object, rkey, alive, nil, add_child}
use ucx_py.Libs.Transfer.Posting.{Owner, of_endpoint}
use ucx_py.Libs.Rma.{RemoteMemory, rma_range, to_word}
use ucx_py.Libs.Rma.Bounds.{asked, rma_range_lem}

-- The names of requests.
pub data Name : Type 0 where
  put_nb_name get_nb_name : Name

-- The set is that of the endpoint of the key.
pub record Posted : Type 0 where
  pub buffer : ℕ
  pub size : ℕ
  pub remote_addr : ℕ
  pub name : Option Name
  pub inflight : Owner

-- The functions.
unfoldable pub put_nb : Array → ℕ → ℕ → Option Name → Posted
put_nb a size remote_addr name = record {
  buffer = a.ptr;
  size = size;
  remote_addr = remote_addr;
  name = elim name [ none ↦ some put_nb_name | some n ↦ some n ];
  inflight = of_endpoint;
}

unfoldable pub get_nb : Array → ℕ → ℕ → Option Name → Posted
get_nb a size remote_addr name = record {
  buffer = a.ptr;
  size = size;
  remote_addr = remote_addr;
  name = name;
  inflight = of_endpoint;
}

-- The methods, on `Array(memory)`.
unfoldable pub remote_put_nb : RemoteMemory → Array → ℤ → ℤ → Result Posted
unfolding put_nb
remote_put_nb r a size offset =
    rma_range r (nbytes a) size offset >>= λ (n, d). ok (put_nb a n d (some get_nb_name))

unfoldable pub remote_get_nb : RemoteMemory → Array → ℤ → ℤ → Result Posted
unfolding get_nb
remote_get_nb r a size offset =
    rma_range r (nbytes a) size offset >>= λ (n, d). ok (get_nb a n d (some get_nb_name))

-- Where what is posted lies inside the region.
abbrev pub Inside : RemoteMemory → Result Posted → Type 0
Inside r (ok p) = (r.base ≤ p.remote_addr) × (p.remote_addr + p.size ≤ r.base + r.length)
Inside r (err x) = Unit

-- With natural sizes and offsets, both methods post the same, under the same name, and nothing that is
-- not inside the region.
pub remote_nb-Inside :
    (r : RemoteMemory) (a : Array) (size offset : ℕ)
    → (remote_put_nb r a (pos size) (pos offset) ≡ remote_get_nb r a (pos size) (pos offset))
      × Inside r (remote_put_nb r a (pos size) (pos offset))
unfolding remote_put_nb remote_get_nb put_nb get_nb
remote_nb-Inside r a size offset = (
  refl,
  elim (Bool-cases (ltb r.length (asked (nbytes a) size + offset))) [
    | inl beyond ↦ rw (remote_put_nb, rma_range_lem r (nbytes a) size offset, beyond) tt
    | inr fits ↦
        elim (Bool-cases (ltb (asked (nbytes a) size) word_mod && ltb (r.base + offset) word_mod)) [
          | inl small ↦
              rw (remote_put_nb, rma_range_lem r (nbytes a) size offset, fits, small)
                (ground arith, ground (arith, fits))
          | inr large ↦ rw (remote_put_nb, rma_range_lem r (nbytes a) size offset, fits, large) tt
        ]
  ],
)

-- `ucp_mem_map_params_t`: the address is set or not; `allocate` stands for the flags of `alloc`.
pub record MapParams : Type 0 where
  pub address : Option ℕ
  pub size : ℕ
  pub allocate : Bool

unfoldable pub alloc : ℤ → Result MapParams
alloc size = to_word size >>= λ n. ok (record { address = none; size = n; allocate = true })

unfoldable pub map_memory : Array → MapParams
map_memory a = record { address = some a.ptr; size = nbytes a; allocate = false }

-- `UCXRkey.__init__` on the endpoint, with the status of `ucp_ep_rkey_unpack` and the handle.
unfoldable pub rkey_init : UcsStatus → ℕ → Object → Result (Object × Object)
rkey_init status handle ep = assert_ucs_status status >>= λ _.
    (let k = object rkey handle alive nil in ok (k, add_child k ep))
