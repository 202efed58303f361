-- ===== src/Libs/RemoteKey.antt =====
-- Packed remote keys of ucp/_libs/packed_remote_key.pyx and memory handles of ucx_memory_handle.pyx, over
-- the blocks of memory of Libs/UcxAddress.
mod Tests
use ucx_py.Prelude.{
  ℕ, ◌≡◌, refl, ap, suc, Bool, true, false, Option, none, some, List, ◌∷◌, ◌==◌, if◌then◌else◌, ◌+◌,
  ◌<◌, arith,
}
use ucx_py.Exceptions.{Exn, Result, ok, err, ◌>>=◌, is_ok}
use ucx_py.Prelude.{not, ◌&&◌}
use ucx_py.Struct.{Bytes}
use ucx_py.Libs.Ucs.{UcsStatus, is_ucs_ok, assert_ucs_status}
use ucx_py.Libs.UcxAddress.{Owner, ucx, libc, Heap, allocate}

-- `_key` of a PackedRemoteKey; the block's bytes are `_length` many.
pub record PackedRemoteKey : Type 0 where
  pub key : ℕ

-- `__cinit__`: a copy in memory of malloc.
unfoldable pub cinit : Bytes → Heap → PackedRemoteKey × Heap
cinit bytes h = let (a, h') = allocate libc bytes h in (record { key = a }, h')

abbrev pub give_back : Owner → ℕ → Heap → Heap
give_back o a h = record h { returned = (o, a) ∷ h.returned }

-- `from_mem_handle`, with the status of `ucp_rkey_pack` and the bytes that it packs; where the status is
-- an error no key was set, and `none` is the crash of reading it.
unfoldable pub from_mem_handle : UcsStatus → Bytes → Heap → Option (PackedRemoteKey × Heap)
unfolding cinit
from_mem_handle status bytes h =
    if is_ucs_ok status
    then (let (a, h1) = allocate ucx bytes h in
        let (k, h2) = cinit (h1.content a) h1 in some (k, give_back ucx a h2))
    else none

-- `from_buffer`, for a buffer with these bytes.
unfoldable pub from_buffer : Bool → Bytes → Heap → Result (PackedRemoteKey × Heap)
unfolding cinit
from_buffer c_contiguous bytes h =
    if c_contiguous then ok (cinit bytes h) else err Exn.assertion_error

-- `bytes(self)`, by the buffer of `__getbuffer__`.
abbrev pub bytes_of : PackedRemoteKey → Heap → Bytes
bytes_of k h = h.content k.key

-- `__reduce__`: pickling keeps the bytes, and unpickling is `from_buffer`.
unfoldable pub reload : PackedRemoteKey → Heap → Result (PackedRemoteKey × Heap)
unfolding from_buffer
reload k h = from_buffer true (bytes_of k h) h

-- `__dealloc__`
unfoldable pub dealloc : PackedRemoteKey → Heap → Heap
dealloc k h = give_back libc k.key h

-- A key is packed, pickled and unpickled, and both objects are dropped.
unfoldable pub travel : Bytes → Heap → Option (Result (Bytes × Heap))
unfolding from_mem_handle reload dealloc
travel bytes h = elim (from_mem_handle UcsStatus.ucs_ok bytes h) [
  | none ↦ none
  | some (k, h1) ↦ some (reload k h1 >>= λ (k', h2). ok (bytes_of k' h2, dealloc k' (dealloc k h2)))
]

heap_of : Option (Result (Bytes × Heap)) → Heap → Heap
heap_of (some (ok (bytes, h'))) h = h'
heap_of (some (err x)) h = h
heap_of none h = h

-- A key that is packed well, pickled and unpickled has the bytes that UCX packed; when both objects
-- are dropped, each of the three blocks of memory has been given back once, and to UCX or the C
-- library as it was allocated.
pub travel_keeps :
    (bytes : Bytes) (h : Heap)
    → (h' : Heap) × (travel bytes h ≡ some (ok (bytes, h')))
      × (h'.next ≡ h.next + 3)
      × (h'.returned ≡ (libc, h.next + 2) ∷ (libc, h.next + 1) ∷ (ucx, h.next) ∷ h.returned)
      × (h'.owner h.next ≡ ucx)
      × (h'.owner (h.next + 1) ≡ libc)
      × (h'.owner (h.next + 2) ≡ libc)
unfolding travel from_mem_handle reload from_buffer cinit dealloc allocate heap_of
travel_keeps bytes h =
    let h' = heap_of (travel bytes h) h in
    (
      h',
      ap (λ (b : Bytes). some (ok (b, h'))) (ground arith),
      omega arith,
      ground arith,
      ground arith,
      ground arith,
      ground arith,
    )

-- What stays of the making of a memory handle: is memory mapped, and will the finalizer unmap it?
pub record Mapping : Type 0 where
  pub mapped : Bool
  pub has_finalizer : Bool

-- `_address` and `_length` of a UCXMemoryHandle, as `_populate_metadata` asks UCX for them.
pub record MemHandle : Type 0 where
  pub r_address : ℕ
  pub length : ℕ

-- `_populate_metadata`, with the status and the answer of `ucp_mem_query`.
unfoldable pub populate_metadata : UcsStatus → MemHandle → Result MemHandle
populate_metadata status attr = assert_ucs_status status >>= λ _. ok attr

unfoldable pub mem_handle_cinit :
    Bool → UcsStatus → UcsStatus → MemHandle → Result MemHandle × Mapping
unfolding populate_metadata
mem_handle_cinit initialized mem_map mem_query attr =
    if initialized
    then (let made = assert_ucs_status mem_map >>= λ _. populate_metadata mem_query attr in
        (
          made,
          record {
            mapped = is_ucs_ok mem_map;
            has_finalizer = elim made [ ok _ ↦ true | err x ↦ false ];
          },
        ))
    else (err Exn.assertion_error, record { mapped = false; has_finalizer = false })

-- `_ucx_mem_handle_finalizer`
unfoldable pub mem_handle_finalizer : Bool → UcsStatus → Mapping → Result (Unit {0}) × Mapping
mem_handle_finalizer initialized mem_unmap m =
    if initialized
    then (
      assert_ucs_status mem_unmap >>= λ _. ok tt,
      record m { mapped = if is_ucs_ok mem_unmap then false else m.mapped; has_finalizer = false },
    )
    else (err Exn.assertion_error, record m { has_finalizer = false })

-- A memory handle is made exactly when the context is initialized and UCX neither refuses to map
-- nor to be asked; where it maps and refuses to be asked, memory stays mapped.
pub mem_handle_left :
    (initialized : Bool) (mem_map mem_query : UcsStatus) (attr : MemHandle)
    → let (r, m) = mem_handle_cinit initialized mem_map mem_query attr in
      let m' = if m.has_finalizer then (mem_handle_finalizer true UcsStatus.ucs_ok m).1 else m in
      (is_ok r
        ≡ (initialized && is_ok (assert_ucs_status mem_map) && is_ok (assert_ucs_status mem_query)))
      × (m'.mapped
          ≡ (initialized && is_ucs_ok mem_map && not (is_ok (assert_ucs_status mem_query))))
unfolding mem_handle_cinit mem_handle_finalizer assert_ucs_status
mem_handle_left initialized mem_map mem_query attr = (ground arith, ground arith)
