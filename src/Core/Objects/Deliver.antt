-- ===== src/Core/Objects/Deliver.antt =====
-- `recv_obj` returns what `send_obj` sent.
use ucx_py.Prelude.{ℕ, ◌+◌, ◌≡◌, Bool, false, Option, none, some, [], ◌∷◌, length, arith, ap, ◌∙◌}
use ucx_py.Exceptions.{ok}
use ucx_py.Hash.{Digest, Arg, hash64bits}
use ucx_py.Struct.{Bytes, IsU64, packed, pack-packed, unpack-packed, length-packed}
use ucx_py.Libs.UcxEndpoint.{UcxEndpoint}
use ucx_py.Libs.UcxEndpoint
use ucx_py.Core.Endpoint.{
  Endpoint, Tags, UserTag, closed, uid, on_ep, select_tag, send_start, send_end, recv_start,
  recv_end,
}
use ucx_py.Core.Objects.{send_bytes, send_obj, recv_bytes, recv_obj}

-- The tag of a message by the endpoint's tag and the caller's.
unfoldable pub tag_of : Digest → ℕ → Option UserTag → ℕ
tag_of sha1 t none = t
tag_of sha1 t (some tag) = hash64bits sha1 (Arg.num t ∷ tag.hash ∷ [])

module _ (sha1 : Digest) (tag : Option UserTag) (e : Endpoint) (b : UcxEndpoint) (ctx : ℕ)
    (t : Tags) (has_ep : e.ep ≡ some b) (has_ctx : e.ctx ≡ some ctx) (has_tags : e.tags ≡ some t)
    (open_ : closed e ≡ false) where
  pub send_bytes_sends :
      (bytes : Bytes)
      → send_bytes sha1 tag (ok tt) bytes e
        ≡ (ok (tag_of sha1 t.msg_send tag, bytes), record e { send_count = e.send_count + 1 })
  unfolding send_bytes send_start on_ep UcxEndpoint.raise_on_error closed select_tag uid
      UcxEndpoint.handle send_end tag_of UcxEndpoint.is_alive
  send_bytes_sends bytes = ground arith

  pub recv_bytes_receives :
      (probe : ℕ → Bool) (size : ℕ) (comes : ℕ → Bytes)
      → e.close_after ≡ none
      → length (comes (tag_of sha1 t.msg_recv tag)) ≡ size
      → recv_bytes sha1 probe tag size comes e ≡ (
        ok (comes (tag_of sha1 t.msg_recv tag)),
        record e { recv_count = e.recv_count + 1; finished_recv_count = e.finished_recv_count + 1 },
      )
  unfolding recv_bytes recv_start on_ep UcxEndpoint.raise_on_error closed select_tag uid
      UcxEndpoint.handle recv_end tag_of UcxEndpoint.is_alive
  recv_bytes_receives probe size comes unlimited fits = ground arith

pub still_open :
    (e : Endpoint) → closed e ≡ false → closed (record e { send_count = e.send_count + 1 }) ≡ false
unfolding closed
still_open e open_ = open_

pub still_open' :
    (e : Endpoint)
    → closed e ≡ false
    → closed (record e {
      recv_count = e.recv_count + 1;
      finished_recv_count = e.finished_recv_count + 1;
    })
      ≡ false
unfolding closed
still_open' e open_ = open_

module _ (sha1 : Digest) (tag : Option UserTag) (e f : Endpoint) (b c : UcxEndpoint) (ctx ctx' : ℕ)
    (t u : Tags) (e_ep : e.ep ≡ some b) (e_ctx : e.ctx ≡ some ctx) (e_tags : e.tags ≡ some t)
    (e_open : closed e ≡ false) (f_ep : f.ep ≡ some c) (f_ctx : f.ctx ≡ some ctx')
    (f_tags : f.tags ≡ some u) (f_open : closed f ≡ false) (obj : Bytes)
    (bound : IsU64 (length obj)) where
  send_obj_sends :
      (send_obj sha1 tag (ok tt) (ok tt) (ok obj) e).0
      ≡ ok (
        (tag_of sha1 t.msg_send tag, packed (length obj ∷ [])),
        (tag_of sha1 t.msg_send tag, obj),
      )
  unfolding send_obj
  send_obj_sends =
      let e' = record e { send_count = e.send_count + 1 } in
      ground (
        arith,
        pack-packed (length obj ∷ []) (bound, tt),
        send_bytes_sends sha1 tag e b ctx t e_ep e_ctx e_tags e_open (packed (length obj ∷ [])),
        send_bytes_sends sha1 tag e' b ctx t e_ep e_ctx e_tags (still_open e e_open) obj,
      )

  recv_obj_receives :
      (probe : ℕ → Bool) (comes comes' : ℕ → Bytes)
      → f.close_after ≡ none
      → comes (tag_of sha1 u.msg_recv tag) ≡ packed (length obj ∷ [])
      → comes' (tag_of sha1 u.msg_recv tag) ≡ obj
      → (recv_obj sha1 probe tag comes comes' f).0 ≡ ok obj
  unfolding recv_obj
  recv_obj_receives probe comes comes' unlimited first second =
      let f' = record f {
        recv_count = f.recv_count + 1;
        finished_recv_count = f.finished_recv_count + 1;
      } in
      ground (
        arith,
        recv_bytes_receives sha1 tag f c ctx' u f_ep f_ctx f_tags f_open probe 8 comes unlimited
            (ap length first ∙ length-packed (length obj ∷ [])),
        first,
        unpack-packed (length obj ∷ []) (bound, tt),
        recv_bytes_receives sha1 tag f' c ctx' u f_ep f_ctx f_tags (still_open' f f_open) probe
            (length obj) comes' unlimited (ap length second),
      )

  -- Where two endpoints are open, one sends on the tag on which the other receives, and no limit is
  -- set there, `send_obj` of fewer than 2 ^ 64 bytes sends two messages on one tag, its size in 8
  -- bytes and the object; and if they come to the two receives of `recv_obj` with the same tag of
  -- the caller, that returns the object.
  pub recv_obj-send_obj :
      (probe : ℕ → Bool) (comes comes' : ℕ → Bytes)
      → f.close_after ≡ none
      → u.msg_recv ≡ t.msg_send
      → comes (tag_of sha1 t.msg_send tag) ≡ packed (length obj ∷ [])
      → comes' (tag_of sha1 t.msg_send tag) ≡ obj
      → ((send_obj sha1 tag (ok tt) (ok tt) (ok obj) e).0
          ≡ ok (
            (tag_of sha1 t.msg_send tag, packed (length obj ∷ [])),
            (tag_of sha1 t.msg_send tag, obj),
          ))
        × ((recv_obj sha1 probe tag comes comes' f).0 ≡ ok obj)
  recv_obj-send_obj probe comes comes' unlimited crossed first second = (
    send_obj_sends,
    recv_obj_receives probe comes comes' unlimited
        (ap (λ (m : ℕ). comes (tag_of sha1 m tag)) crossed ∙ first)
        (ap (λ (m : ℕ). comes' (tag_of sha1 m tag)) crossed ∙ second),
  )
