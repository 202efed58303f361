-- ===== src/Benchmarks/Roundtrip/Tests.antt =====
-- A run of one iteration by tag.
use ucx_py.Prelude.{◌≡◌, ◌<◌, ◌+◌, ◌*◌, ◌⊎◌, refl, true, some, [], ◌∷◌}
use ucx_py.Benchmarks.Roundtrip.{
  sending, receiving, State, Move, move, begin, client_sent, server_received, server_sent,
  client_received, server_closed, Reach, here, next,
}
use ucx_py.Benchmarks.Roundtrip.Ends.{moves, copies, Reach-ends}

abbrev finished : State
finished = record {
  client_left = 0;
  client = sending;
  server_left = 0;
  server = receiving;
  up = [];
  down = [];
  held = 5 ∷ [];
  got = (5 ∷ []) ∷ [];
  closed = true;
}

-- The server closes before the client has received its answer.
one_round : Reach true 1 (5 ∷ []) finished
unfolding begin move
one_round =
    next
      (next (next (next (next (here refl) client_sent refl) server_received refl) server_sent refl)
        server_closed refl)
      client_received refl

Reach-ends_example :
    ((m : Move) × (s' : State) × (move (5 ∷ []) m finished ≡ some s')
      × (moves one_round < 4 * 1 + 1))
    ⊎ ((moves one_round ≡ 4 * 1 + 1)
        × (finished.client_left ≡ 0)
        × (finished.server_left ≡ 0)
        × (finished.got ≡ copies (5 ∷ []) 1)
        × (finished.closed ≡ true))
Reach-ends_example = Reach-ends true 1 (5 ∷ []) finished one_round
