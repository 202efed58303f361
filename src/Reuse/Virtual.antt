-- ===== src/Reuse/Virtual.antt =====
-- `send` and `recv` of EndpointReuse (ucp/endpoint_reuse.py): the virtual endpoints of one shared
-- endpoint, each with its own tag, and the messages in flight on the connection.
pub mod Ready
pub mod Wire
pub mod Channels
mod Tests
use ucx_py.Prelude.{
  ℕ, ◌≡◌, Bool, true, false, ◌&&◌, Option, none, some, List, [], ◌∷◌, ◌++◌, length, ◌==◌,
  if◌then◌else◌,
}
use ucx_py.Struct.{Bytes}
use ucx_py.Exceptions.{Exn, Result, ok, err}
use ucx_py.Action.{Action}
use ucx_py.Hash.{Digest}
use ucx_py.Core.Endpoint.{Endpoint, UserTag}
use ucx_py.Core.Objects.{Message, send_bytes, recv_bytes}
use ucx_py.Core.Objects.Deliver.{tag_of}

-- `self.handle.ep`, on a `handle` that may be None.
unfoldable pub on_handle : {A : Type 0} → Action Endpoint A → Action (Option Endpoint) A
on_handle m none = (err Exn.attribute_error, none)
on_handle m (some e) = let (r, e') = m e in (r, some e')

-- `send` to its end, with the outcome of UCX's transfer.
unfoldable pub send :
    Digest → UserTag → Result (Unit {0}) → Bytes → Action (Option Endpoint) Message
unfolding on_handle
send sha1 tag outcome bytes = on_handle (send_bytes sha1 (some tag) outcome bytes)

-- `recv` into a buffer of this size, with the message that comes on a tag.
unfoldable pub recv :
    Digest → (ℕ → Bool) → UserTag → ℕ → (ℕ → Bytes) → Action (Option Endpoint) Bytes
unfolding on_handle
recv sha1 probe tag size comes = on_handle (recv_bytes sha1 probe (some tag) size comes)

-- One connection: the shared endpoints of both sides, and the messages in flight, the oldest first.
pub record Shared : Type 0 where
  pub sender : Option Endpoint
  pub receiver : Option Endpoint
  pub wire : List Message

-- V are the virtual endpoints. A receive is run when a message for it is there.
pub data Event (V : Type 0) : Type 0 where
  send_on : V → Bytes → Event V
  recv_on : V → Event V

-- UCX's matching: the message that a receive on a tag takes, and the others.
abbrev pub Matching : Type 0
Matching = ℕ → List Message → Option (Bytes × List Message)

abbrev pub taken : Option (Bytes × List Message) → Bytes
taken none = []
taken (some (bytes, wire)) = bytes

sent : Result Message × Option Endpoint → Shared → Option Bytes × Shared
sent (err x, e) s = (none, record s { sender = e })
sent (ok m, e) s = (none, record s { sender = e; wire = s.wire ++ m ∷ [] })

received : Result Bytes × Option Endpoint → List Message → Shared → Option Bytes × Shared
received (err x, f) wire s = (none, record s { receiver = f })
received (ok got, f) wire s = (some got, record s { receiver = f; wire = wire })

-- `t` is the tag of the connection's messages, `user_tag` the attribute `tag`.
module _ {V : Type 0} (sha1 : Digest) (probe : ℕ → Bool) (matching : Matching) (t : ℕ)
    (user_tag : V → UserTag) where
  -- The tag under which a virtual endpoint's messages go.
  abbrev pub wire_tag : V → ℕ
  wire_tag v = tag_of sha1 t (some (user_tag v))

  -- What is received, if anything, and the connection afterwards.
  unfoldable pub step : Event V → Shared → Option Bytes × Shared
  unfolding send recv sent received
  step (send_on v bytes) s = sent (send sha1 (user_tag v) (ok tt) bytes s.sender) s
  step (recv_on v) s = elim (matching (wire_tag v) s.wire) [
    | none ↦ (none, s)
    | some (bytes, wire) ↦
        received
          (recv sha1 probe (user_tag v) (length bytes) (λ k. taken (matching k s.wire)) s.receiver)
          wire s
  ]

  -- What is received at each event.
  unfoldable pub run : List (Event V) → Shared → List (Option Bytes)
  unfolding step
  run [] s = []
  run (ev ∷ evs) s = let (reply, s') = step ev s in reply ∷ run evs s'
