-- ===== src/Core/PeerInfo/Agree.antt =====
-- Both sides agree on their tags.
use ucx_py.Prelude.{◌==◌, if◌then◌else◌, ℕ, ◌≡◌, refl, List, [], ◌∷◌, some, arith, length}
use ucx_py.Exceptions.{Exn, ok, err}
use ucx_py.Struct.{Bytes, IsU64, packed, pack-packed, unpack-packed, length-packed}
use ucx_py.Hash.{Digest, hash64bits-IsU64}
use ucx_py.Libs.UcxEndpoint.{UcxEndpoint}
use ucx_py.Core.Endpoint.{Endpoint, Tags, init}
use ucx_py.Core.PeerInfo.{Own, own_tags, checksum, my_info, read_peer_info, make_tags, establish}

-- The three numbers of a message.
abbrev words : Digest → Own → List ℕ
words sha1 o = o.msg_tag ∷ o.ctrl_tag ∷ checksum sha1 o.msg_tag o.ctrl_tag ∷ []

-- What one side sends on the other receives on.
abbrev pub Crossed : Endpoint → Endpoint → Type 0
Crossed e f =
    (t : Tags) × (u : Tags) × (e.tags ≡ some t)
    × (f.tags ≡ some u)
    × (t.msg_send ≡ u.msg_recv)
    × (t.ctrl_send ≡ u.ctrl_recv)
    × (u.msg_send ≡ t.msg_recv)
    × (u.ctrl_send ≡ t.ctrl_recv)

module _ (sha1 : Digest) where
  checksum-IsU64 : (m c : ℕ) → IsU64 (checksum sha1 m c)
  unfolding checksum
  checksum-IsU64 m c = hash64bits-IsU64 sha1 _

  my_info-packed :
      (o : Own) → IsU64 o.msg_tag → IsU64 o.ctrl_tag → my_info sha1 o ≡ ok (packed (words sha1 o))
  unfolding my_info
  my_info-packed o m c = pack-packed (words sha1 o) (m, (c, (checksum-IsU64 _ _, tt)))

  -- A message of three numbers of 64 bits is accepted exactly when the third is the checksum of the
  -- other two, which are the tags; otherwise RuntimeError is raised.
  pub read_peer_info_checks :
      (m c s : ℕ)
      → IsU64 m
      → IsU64 c
      → IsU64 s
      → read_peer_info sha1 (packed (m ∷ c ∷ s ∷ [])) ≡ (
          if checksum sha1 m c == s
          then ok (record { msg_tag = m; ctrl_tag = c })
          else err Exn.runtime_error)
  unfolding read_peer_info
  read_peer_info_checks m c s hm hc hs = rw (unpack-packed (m ∷ c ∷ s ∷ []) (hm, (hc, (hs, tt))))

  own-IsU64 :
      (seed : Bytes) (handle : ℕ)
      → IsU64 (own_tags sha1 seed handle).msg_tag × IsU64 (own_tags sha1 seed handle).ctrl_tag
  unfolding own_tags
  own-IsU64 seed handle = (hash64bits-IsU64 sha1 _, hash64bits-IsU64 sha1 _)

  peer_read :
      (seed : Bytes) (handle : ℕ)
      → let o = own_tags sha1 seed handle in read_peer_info sha1 (packed (words sha1 o)) ≡ ok o
  peer_read seed handle =
      let o = own_tags sha1 seed handle in
      let h = own-IsU64 seed handle in
      ground (
        arith,
        read_peer_info_checks o.msg_tag o.ctrl_tag _ h.0 h.1 (checksum-IsU64 o.msg_tag o.ctrl_tag),
      )

  -- Whatever the handles and the random seeds of two sides, both messages have 24 bytes, each side
  -- accepts the message of the other, and each of the two endpoints receives on the tags on which
  -- the other sends.
  pub establish_agrees :
      (b c : UcxEndpoint) (ctx ctx' : ℕ) (seed seed' : Bytes)
      → (info : Bytes) × (info' : Bytes) × (e : Endpoint) × (f : Endpoint) × (my_info sha1
            (own_tags sha1 seed b.handle_as_int)
          ≡ ok info)
        × (my_info sha1 (own_tags sha1 seed' c.handle_as_int) ≡ ok info')
        × (length info ≡ 24)
        × (length info' ≡ 24)
        × (establish sha1 b ctx seed info' ≡ ok e)
        × (establish sha1 c ctx' seed' info ≡ ok f)
        × Crossed e f
  unfolding establish init make_tags
  establish_agrees b c ctx ctx' seed seed' =
      let o = own_tags sha1 seed b.handle_as_int in
      let p = own_tags sha1 seed' c.handle_as_int in
      let h = own-IsU64 seed b.handle_as_int in
      let k = own-IsU64 seed' c.handle_as_int in
      (
        packed (words sha1 o),
        packed (words sha1 p),
        init b ctx (some (make_tags o p)),
        init c ctx' (some (make_tags p o)),
        my_info-packed o h.0 h.1,
        my_info-packed p k.0 k.1,
        length-packed (words sha1 o),
        length-packed (words sha1 p),
        rw (peer_read seed' c.handle_as_int),
        rw (peer_read seed b.handle_as_int),
        (make_tags o p, make_tags p o, refl, refl, refl, refl, refl, refl),
      )
