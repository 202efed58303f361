-- ===== src/Core/Objects/Tests.antt =====
-- An object on its way, and the theorem about it at a concrete input.
use ucx_py.Prelude.{◌≡◌, refl, false, none, some, [], ◌∷◌, arith}
use ucx_py.Exceptions.{ok}
use ucx_py.Struct.{packed}
use ucx_py.Libs.UcxEndpoint
use ucx_py.Core.Endpoint.{Tags, init, closed}
use ucx_py.Core.Endpoint.Tests.{sha1, backend}
use ucx_py.Core.Objects.{send_obj, recv_obj}
use ucx_py.Core.Objects.Deliver.{tag_of, recv_obj-send_obj}

-- The tags of one side, and of its peer.
abbrev ours : Tags
ours = record { msg_send = 11; msg_recv = 12; ctrl_send = 13; ctrl_recv = 14 }

abbrev theirs : Tags
theirs = record { msg_send = 12; msg_recv = 11; ctrl_send = 14; ctrl_recv = 13 }

is_open : (t : Tags) → closed (init backend 0 (some t)) ≡ false
unfolding closed init UcxEndpoint.is_alive
is_open t = refl

recv_obj-send_obj_example :
    ((send_obj sha1 none (ok tt) (ok tt) (ok (7 ∷ 8 ∷ 9 ∷ [])) (init backend 0 (some ours))).0
      ≡ ok ((11, packed (3 ∷ [])), (11, 7 ∷ 8 ∷ 9 ∷ [])))
    × ((recv_obj sha1
          (λ t. false)
          none
          (λ t. packed (3 ∷ []))
          (λ t. 7 ∷ 8 ∷ 9 ∷ [])
          (init backend 0 (some theirs))).0
        ≡ ok (7 ∷ 8 ∷ 9 ∷ []))
unfolding init tag_of
recv_obj-send_obj_example =
    recv_obj-send_obj sha1 none (init backend 0 (some ours)) (init backend 0 (some theirs)) backend
      backend 0 0 ours theirs refl refl refl (is_open ours) refl refl refl (is_open theirs)
      (7 ∷ 8 ∷ 9 ∷ []) (omega arith) (λ t. false) (λ t. packed (3 ∷ [])) (λ t. 7 ∷ 8 ∷ 9 ∷ []) refl
      refl refl refl
