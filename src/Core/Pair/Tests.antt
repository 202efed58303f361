-- ===== src/Core/Pair/Tests.antt =====
-- A message, its receive and the shutdown message between two new endpoints.
use ucx_py.Prelude.{◌+◌, ◌≡◌, refl, true, false, none, some, arith, ◌↔◌}
use ucx_py.Exceptions.{ok}
use ucx_py.Libs.UcxEndpoint
use ucx_py.Core.Endpoint.{init, closed, send_start, recv_start}
use ucx_py.Core.Endpoint.Events.{recv, apply}
use ucx_py.Core.Endpoint.Tests.{sha1, backend, tags}
use ucx_py.Core.Pair.{
  Pair, delivered, send_message, close_sender, receiver_event, arrive, tell, step, Reach, here,
  next,
}
use ucx_py.Core.CtrlMsg
use ucx_py.Struct
use ucx_py.Prelude.Bytes
use ucx_py.Core.Endpoint.Close.{close_start}
use ucx_py.Core.Endpoint.Ctrl.{handle_ctrl_msg}
use ucx_py.Core.Pair.Late.{send_message_late}
use ucx_py.Core.Pair.Lossless.{connected, Reach-lossless}

abbrev new : Pair
new = connected backend backend 0 0 (some tags) (some tags)

abbrev p1 : Pair
p1 = step sha1 (send_message (ok 8) none false) new

abbrev p2 : Pair
p2 = step sha1 (receiver_event (recv (λ t. true) (ok 8) none false)) p1

abbrev p3 : Pair
p3 = step sha1 arrive p2

abbrev p4 : Pair
p4 = step sha1 close_sender p3

abbrev p5 : Pair
p5 = step sha1 tell p4

run : Reach sha1 new p5
unfolding step init send_start recv_start apply UcxEndpoint.is_alive
run =
    let r1 : Reach sha1 new p1 = next here (send_message (ok 8) none false) refl in
    let r2 : Reach sha1 new p2 =
      next r1 (receiver_event (recv (λ t. true) (ok 8) none false)) (refl, tt) in
    let r3 : Reach sha1 new p3 = next r2 arrive (omega arith, omega arith) in
    let r4 : Reach sha1 new p4 = next r3 close_sender (omega arith) in next r4 tell tt

new-closed : closed (init backend 0 (some tags)) ≡ false
unfolding closed init UcxEndpoint.is_alive
new-closed = refl

Reach-lossless_example :
    (p5.sender.send_count ≡ p5.messages + p5.receiver.finished_recv_count)
    × ((closed p5.receiver ≡ true) ↔ ((p5.notice ≡ delivered) × (p5.messages ≡ 0)))
Reach-lossless_example =
    Reach-lossless sha1 backend backend 0 0 (some tags) (some tags) p5 new-closed run

-- The sender closes without a message before, and sends one while it waits.
abbrev told : Pair
told = step sha1 tell (step sha1 close_sender new)

told_run : Reach sha1 new told
unfolding step init
told_run = next (next here close_sender (omega arith)) tell tt

told_receiver : closed told.receiver ≡ true
unfolding step init closed close_start handle_ctrl_msg UcxEndpoint.is_alive CtrlMsg.serialize
    CtrlMsg.deserialize Struct.pack Struct.unpack Bytes.to_bytes Bytes.from_bytes
told_receiver = refl

told_sender : closed told.sender ≡ false
unfolding step init closed close_start UcxEndpoint.is_alive CtrlMsg.serialize Struct.pack
told_sender = refl

told_tags : told.sender.tags ≡ some tags
unfolding step init close_start UcxEndpoint.is_alive CtrlMsg.serialize Struct.pack
told_tags = refl

send_message_late_example :
    let p = step sha1 (send_message (ok 8) none false) told in
    (p.messages ≡ 1)
    × (closed p.receiver ≡ true)
    × (p.sender.send_count ≡ p.receiver.finished_recv_count + 1)
send_message_late_example =
    send_message_late sha1 backend backend 0 0 (some tags) (some tags) told 8 tags new-closed
      told_run told_receiver told_sender told_tags
