-- ===== src/Core/PeerInfo/Tests.antt =====
-- The exchange of two peers, and the theorems about it at concrete inputs.
use ucx_py.Prelude.{ℕ, ◌≡◌, ◌<◌, ◌⊎◌, refl, true, false, none, some, [], ◌∷◌, length}
use ucx_py.Exceptions.{ok}
use ucx_py.Struct.{Bytes}
use ucx_py.Core.Endpoint.{Endpoint}
use ucx_py.Core.Endpoint.Tests.{sha1, backend}
use ucx_py.Core.PeerInfo.{stream_recv, own_tags, my_info, establish, streaming_calls}
use ucx_py.Core.PeerInfo.Agree.{Crossed, establish_agrees}
use ucx_py.Core.PeerInfo.Exchange.{
  Net, here, on_a, step_a, step_b, call, meet, finished, exchange_completes,
}

establish_agrees_example :
    (info : Bytes) × (info' : Bytes) × (e : Endpoint) × (f : Endpoint) × (my_info sha1
        (own_tags sha1 (1 ∷ 2 ∷ []) 4096)
      ≡ ok info)
    × (my_info sha1 (own_tags sha1 (3 ∷ 4 ∷ []) 8192) ≡ ok info')
    × (length info ≡ 24)
    × (length info' ≡ 24)
    × (establish sha1 backend 0 (1 ∷ 2 ∷ []) info' ≡ ok e)
    × (establish sha1 (record backend { handle_as_int = 8192 }) 1 (3 ∷ 4 ∷ []) info ≡ ok f)
    × Crossed e f
establish_agrees_example =
    establish_agrees sha1 backend (record backend { handle_as_int = 8192 }) 0 1 (1 ∷ 2 ∷ [])
      (3 ∷ 4 ∷ [])

-- Two messages.
abbrev xs : Bytes
xs =
    1 ∷ 1 ∷ 1 ∷ 1 ∷ 1 ∷ 1 ∷ 1 ∷ 1 ∷ 1 ∷ 1 ∷ 1 ∷ 1 ∷ 1 ∷ 1 ∷ 1 ∷ 1 ∷ 1 ∷ 1 ∷ 1 ∷ 1 ∷ 1 ∷ 1 ∷ 1 ∷ 1
    ∷ []

abbrev ys : Bytes
ys =
    2 ∷ 2 ∷ 2 ∷ 2 ∷ 2 ∷ 2 ∷ 2 ∷ 2 ∷ 2 ∷ 2 ∷ 2 ∷ 2 ∷ 2 ∷ 2 ∷ 2 ∷ 2 ∷ 2 ∷ 2 ∷ 2 ∷ 2 ∷ 2 ∷ 2 ∷ 2 ∷ 2
    ∷ []

-- The listener has sent its message.
abbrev sent : Net
sent = record {
  a = record { calls = stream_recv 24 ∷ []; got = none };
  b = (meet true xs false ys).b;
  to_a = [];
  to_b = xs;
}

listener_sends : step_a (meet true xs false ys) ≡ some sent
unfolding step_a call meet streaming_calls
listener_sends = refl

exchange_completes_example :
    ((◌≡◌ {A = ℕ} 1 4) × (sent ≡ finished xs ys))
    ⊎ ((1 < 4) × ((k : Net) × ((step_a sent ≡ some k) ⊎ (step_b sent ≡ some k))))
exchange_completes_example = exchange_completes xs ys refl refl (on_a here listener_sends)
