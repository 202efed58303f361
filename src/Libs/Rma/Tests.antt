-- ===== src/Libs/Rma/Tests.antt =====
-- A region of four bytes at address 100, and a buffer of three with two bytes behind it.
use ucx_py.Prelude.{ℕ, ◌≡◌, refl, true, [], ◌∷◌, inl, arith}
use ucx_py.Prelude.Int.{pos}
use ucx_py.Exceptions.{Exn, ok, err}
use ucx_py.Libs.Rma.{ucp_put, to_word, rma_range, RemoteMemory, Local, put_nbi}
use ucx_py.Libs.Rma.Memory.{bytes_put, bytes_get, byte_store, byte_store-IsLawful}
use ucx_py.Libs.Rma.Bounds.{put_nbi-window}

abbrev region : RemoteMemory
region = record { base = 100; length = 4 }

abbrev three : Local
three = record { buffer = 1 ∷ 2 ∷ 3 ∷ []; beyond = 8 ∷ 9 ∷ [] }

abbrev blank : ℕ → ℕ
blank a = 0

-- The buffer at offset 1, read back with the byte before it.
put_inside :
    byte_store.get (put_nbi byte_store (ok true) region three (pos 0) (pos 1) blank).1 100 4
    ≡ 0 ∷ 1 ∷ 2 ∷ 3 ∷ []
unfolding put_nbi rma_range to_word ucp_put bytes_get bytes_put
put_inside = refl

put_outside :
    (put_nbi byte_store (ok true) region three (pos 0) (pos 2) blank).0 ≡ err Exn.index_error
unfolding put_nbi rma_range
put_outside = refl

put_nbi-window_example :
    byte_store.get (put_nbi byte_store (ok true) region three (pos 0) (pos 1) blank).1 90 10
    ≡ byte_store.get blank 90 10
put_nbi-window_example =
    put_nbi-window byte_store byte_store-IsLawful (ok true) region three 0 1 blank 90 10
      (inl (omega arith))
