-- ===== src/Core/Pair.antt =====
-- Two connected endpoints of ucp/core.py, one that sends and one that receives: the messages in flight
-- between them, and the shutdown message that the sender's `close` makes.
pub mod Steps
pub mod Lossless
pub mod Late
mod Tests
use ucx_py.Prelude.{ℕ, ◌<◌, ◌-◌, ◌≡◌, suc, Bool, true, false, Option, none, some, if◌then◌else◌}
use ucx_py.Exceptions.{Result, ok, err, is_ok}
use ucx_py.Hash.{Digest}
use ucx_py.Struct.{Bytes, IsU64}
use ucx_py.Core.Endpoint.{Endpoint, UserTag, send_start, am_send_start, recv_end}
use ucx_py.Core.Endpoint.Close.{Await, returned, sending, sleeping, close_start}
use ucx_py.Core.Endpoint.Ctrl.{handle_ctrl_msg}
use ucx_py.Core.Endpoint.Events.{
  send, sent, am_send, recv, am_recv, received, close_after, ctrl, abort_now, close, close_msg_sent,
  close_woken, set_callback, endpoint_error, worker_closes, Enabled, apply,
}
use ucx_py.Core.Endpoint.Events

-- The shutdown message: not sent yet, on its way, or handed to the receiver's handler.
pub data Notice : Type 0 where
  unsent : Notice
  in_flight : Bytes → Notice
  delivered : Notice

pub record Pair : Type 0 where
  pub sender : Endpoint
  pub receiver : Endpoint
  pub messages : ℕ
  pub notice : Notice

-- The message that a call of `close` sends.
abbrev pub sends : Result Await → Option Bytes
sends (ok (sending msg tag)) = some msg
sends (ok returned) = none
sends (ok (sleeping pending)) = none
sends (err x) = none

abbrev pub noticed : Option Bytes → Notice → Notice
noticed none n = n
noticed (some msg) n = in_flight msg

-- Events of an endpoint that send neither a message nor a shutdown message.
abbrev pub quiet : Events.Event → Bool
quiet (send buffer tag force) = false
quiet (am_send buffer) = false
quiet close = false
quiet _ = true

-- Events of an endpoint that neither close it nor end a receive.
abbrev pub harmless : Events.Event → Bool
harmless (send buffer tag force) = true
harmless (sent r) = true
harmless (am_send buffer) = true
harmless (recv probe buffer tag force) = true
harmless (am_recv probe) = true
harmless _ = false

pub data Move : Type 0 where
  send_message : Result ℕ → Option UserTag → Bool → Move
  am_send_message : Result ℕ → Move
  close_sender : Move
  sender_event : Events.Event → Move
  receiver_event : Events.Event → Move
  arrive : Move
  tell : Move

-- A shutdown message on its way is handed to the receiver.
abbrev pub deliver : Notice → Pair → Pair
deliver unsent p = p
deliver (in_flight msg) p = record p {
  receiver = (handle_ctrl_msg msg (ok tt) p.receiver).1;
  notice = delivered;
}
deliver delivered p = p

module _ (sha1 : Digest) where
  -- A message is in flight once its `send` has come to the await; it arrives when a receive ends.
  unfoldable pub step : Move → Pair → Pair
  step (send_message buffer tag force) p =
      let (r, e) = send_start sha1 buffer tag force p.sender in
      record p { sender = e; messages = if is_ok r then suc p.messages else p.messages }
  step (am_send_message buffer) p =
      let (r, e) = am_send_start buffer p.sender in
      record p { sender = e; messages = if is_ok r then suc p.messages else p.messages }
  step close_sender p =
      let (r, e) = close_start p.sender in
      record p { sender = e; notice = noticed (sends r) p.notice }
  step (sender_event ev) p = record p { sender = apply sha1 ev p.sender }
  step (receiver_event ev) p = record p { receiver = apply sha1 ev p.receiver }
  step arrive p = record p { receiver = (recv_end (ok tt) p.receiver).1; messages = p.messages - 1 }
  step tell p = deliver p.notice p

  -- Messages are sent before the sender is closed; one that arrives is in flight, and a receive for it
  -- has begun.
  abbrev pub CanMove : Move → Pair → Type 0
  CanMove (send_message buffer tag force) p = p.sender.shutting_down_peer ≡ false
  CanMove (am_send_message buffer) p = p.sender.shutting_down_peer ≡ false
  CanMove close_sender p = IsU64 p.sender.send_count
  CanMove (sender_event ev) p = (quiet ev ≡ true) × Enabled sha1 ev p.sender
  CanMove (receiver_event ev) p = (harmless ev ≡ true) × Enabled sha1 ev p.receiver
  CanMove arrive p = (0 < p.messages) × (p.receiver.finished_recv_count < p.receiver.recv_count)
  CanMove tell p = Unit

  pub data Reach (p : Pair) : Pair → Type 0 where
    here : Reach p p
    next : {q : Pair} → Reach p q → (m : Move) → CanMove m q → Reach p (step m q)
