-- ===== src/Core/PeerInfo.antt =====
-- How two peers agree on their tags: `exchange_peer_info` of ucp/core.py, and the tags that
-- `_listener_handler_coroutine` and `create_endpoint` make from it.
pub mod Exchange
mod Tests
pub mod Agree
use Prim.Native.String.{String}
use ucx_py.Prelude.{ℕ, Bool, true, false, List, [], ◌∷◌, some, ◌==◌, if◌then◌else◌, length}
use ucx_py.Exceptions.{Exn, Result, ok, err, ◌>>=◌}
use ucx_py.Struct.{Bytes, pack, unpack}
use ucx_py.Hash.{Digest, Arg, hash64bits}
use ucx_py.Libs.UcxEndpoint.{UcxEndpoint}
use ucx_py.Core.Endpoint.{Endpoint, Tags, init}

-- The two tags that a side receives on.
pub record Own : Type 0 where
  pub msg_tag : ℕ
  pub ctrl_tag : ℕ

-- The tags from the 16 random bytes `seed` and the endpoint's handle.
unfoldable pub own_tags : Digest → Bytes → ℕ → Own
own_tags sha1 seed handle = record {
  msg_tag = hash64bits sha1 (Arg.text "msg_tag" ∷ Arg.blob seed ∷ Arg.num handle ∷ []);
  ctrl_tag = hash64bits sha1 (Arg.text "ctrl_tag" ∷ Arg.blob seed ∷ Arg.num handle ∷ []);
}

unfoldable pub checksum : Digest → ℕ → ℕ → ℕ
checksum sha1 m c = hash64bits sha1 (Arg.num m ∷ Arg.num c ∷ [])

-- The message "QQQ" that goes to the peer.
unfoldable pub my_info : Digest → Own → Result Bytes
my_info sha1 o = pack (o.msg_tag ∷ o.ctrl_tag ∷ checksum sha1 o.msg_tag o.ctrl_tag ∷ [])

sanity_check : Digest → List ℕ → Result Own
sanity_check sha1 (m ∷ c ∷ s ∷ []) =
    if checksum sha1 m c == s
    then ok (record { msg_tag = m; ctrl_tag = c })
    else err Exn.runtime_error
sanity_check sha1 _ = err Exn.value_error

-- The peer's message, unpacked and checked.
unfoldable pub read_peer_info : Digest → Bytes → Result Own
unfolding sanity_check
read_peer_info sha1 peer_info = unpack 3 peer_info >>= sanity_check sha1

-- The two streaming calls in the order of each side: the listener sends first.
pub data StreamOp : Type 0 where
  stream_send : Bytes → StreamOp
  stream_recv : ℕ → StreamOp

unfoldable pub streaming_calls : Bool → Bytes → List StreamOp
streaming_calls listener info =
    if listener
    then stream_send info ∷ stream_recv (length info) ∷ []
    else stream_recv (length info) ∷ stream_send info ∷ []

-- What each side receives on is what the other sends on.
unfoldable pub make_tags : Own → Own → Tags
make_tags own peer = record {
  msg_send = peer.msg_tag;
  msg_recv = own.msg_tag;
  ctrl_send = peer.ctrl_tag;
  ctrl_recv = own.ctrl_tag;
}

-- The endpoint that comes of the peer's message, on either side. The seed is `os.urandom(16)`.
unfoldable pub establish : Digest → UcxEndpoint → ℕ → Bytes → Bytes → Result Endpoint
establish sha1 endpoint ctx seed peer_info = read_peer_info sha1 peer_info >>= λ peer.
    ok (init endpoint ctx (some (make_tags (own_tags sha1 seed endpoint.handle_as_int) peer)))
