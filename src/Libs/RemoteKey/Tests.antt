-- ===== src/Libs/RemoteKey/Tests.antt =====
-- A key of three bytes is packed, pickled and unpickled.
use ucx_py.Prelude.{ℕ, ◌≡◌, refl, [], ◌∷◌, Option, some, List}
use ucx_py.Exceptions.{Result, ok}
use ucx_py.Libs.UcxAddress.{ucx, Heap, allocate}
use ucx_py.Libs.RemoteKey.{travel, from_mem_handle, cinit, reload, from_buffer, dealloc}

abbrev heap : Heap
heap = record { next = 5; owner = λ a. ucx; content = λ a. []; returned = [] }

abbrev bytes_after : Option (Result (List ℕ × Heap)) → List ℕ
bytes_after (some (ok (bytes, h))) = bytes
bytes_after other = []

travels : bytes_after (travel (1 ∷ 2 ∷ 3 ∷ []) heap) ≡ 1 ∷ 2 ∷ 3 ∷ []
unfolding travel from_mem_handle cinit reload from_buffer dealloc allocate
travels = refl
