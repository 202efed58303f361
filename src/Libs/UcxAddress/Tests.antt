-- ===== src/Libs/UcxAddress/Tests.antt =====
-- An address from a buffer of one byte is a copy of it.
use ucx_py.Prelude.{◌≡◌, refl, true, [], ◌∷◌}
use ucx_py.Exceptions.{ok}
use ucx_py.Libs.UcxAddress.{false, Heap, libc, from_buffer, cinit, allocate}

abbrev one_block : Heap
one_block = record { next = 1; owner = λ a. libc; content = λ a. 7 ∷ []; returned = [] }

copied :
    ((from_buffer true 0 one_block).0 ≡ ok (record { address = 1; of_worker = false }))
    × ((from_buffer true 0 one_block).1.content 1 ≡ 7 ∷ [])
unfolding from_buffer cinit allocate
copied = (refl, refl)
