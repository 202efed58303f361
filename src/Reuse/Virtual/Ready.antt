-- ===== src/Reuse/Virtual/Ready.antt =====
-- `send` and `recv` of a virtual endpoint whose shared endpoint is open.
use ucx_py.Prelude.{ℕ, ◌≡◌, refl, ap, Bool, false, Option, none, some, length, ◌+◌}
use ucx_py.Struct.{Bytes}
use ucx_py.Exceptions.{ok}
use ucx_py.Hash.{Digest}
use ucx_py.Libs.UcxEndpoint.{UcxEndpoint}
use ucx_py.Core.Endpoint.{Endpoint, Tags, UserTag, closed}
use ucx_py.Core.Objects.Deliver.{
  tag_of, send_bytes_sends, recv_bytes_receives, still_open, still_open',
}
use ucx_py.Reuse.Virtual.{on_handle, send, recv}

-- A handle whose endpoint is open, with tags and without a limit on its receives.
pub record Ready (field : Tags → ℕ) (t : ℕ) (handle : Option Endpoint) : Type 0 where
  pub ep : Endpoint
  pub backend : UcxEndpoint
  pub ctx : ℕ
  pub tags : Tags
  pub has_endpoint : handle ≡ some ep
  pub has_ep : ep.ep ≡ some backend
  pub has_ctx : ep.ctx ≡ some ctx
  pub has_tags : ep.tags ≡ some tags
  pub has_tag : field tags ≡ t
  pub is_open : closed ep ≡ false
  pub unlimited : ep.close_after ≡ none

pub send_lem :
    (sha1 : Digest) (t : ℕ) (tag : UserTag) (bytes : Bytes) (h : Option Endpoint)
    → Ready (λ tags. tags.msg_send) t h
    → (h' : Option Endpoint) × (send sha1 tag (ok tt) bytes h
        ≡ (ok (tag_of sha1 t (some tag), bytes), h'))
      × Ready (λ tags. tags.msg_send) t h'
unfolding send on_handle
send_lem sha1 t tag bytes h r =
    let e' = record r.ep { send_count = r.ep.send_count + 1 } in
    let sent =
      send_bytes_sends sha1 (some tag) r.ep r.backend r.ctx r.tags r.has_ep r.has_ctx r.has_tags
        r.is_open bytes in
    (
      some e',
      rw (r.has_endpoint, send, sent, r.has_tag) refl,
      record {
        ep = e';
        backend = r.backend;
        ctx = r.ctx;
        tags = r.tags;
        has_endpoint = refl;
        has_ep = r.has_ep;
        has_ctx = r.has_ctx;
        has_tags = r.has_tags;
        has_tag = r.has_tag;
        is_open = still_open r.ep r.is_open;
        unlimited = r.unlimited;
      },
    )

pub recv_lem :
    (sha1 : Digest) (probe : ℕ → Bool) (t : ℕ) (tag : UserTag) (comes : ℕ → Bytes) (bytes : Bytes)
    (h : Option Endpoint)
    → Ready (λ tags. tags.msg_recv) t h
    → comes (tag_of sha1 t (some tag)) ≡ bytes
    → (h' : Option Endpoint) × (recv sha1 probe tag (length bytes) comes h ≡ (ok bytes, h'))
      × Ready (λ tags. tags.msg_recv) t h'
unfolding recv on_handle
recv_lem sha1 probe t tag comes bytes h r there =
    let e' = record r.ep {
      recv_count = r.ep.recv_count + 1;
      finished_recv_count = r.ep.finished_recv_count + 1;
    } in
    let got =
      recv_bytes_receives sha1 (some tag) r.ep r.backend r.ctx r.tags r.has_ep r.has_ctx r.has_tags
        r.is_open probe (length bytes) comes r.unlimited (rw r.has_tag (ap length there)) in
    (
      some e',
      rw (r.has_endpoint, recv, got, r.has_tag, there) refl,
      record {
        ep = e';
        backend = r.backend;
        ctx = r.ctx;
        tags = r.tags;
        has_endpoint = refl;
        has_ep = r.has_ep;
        has_ctx = r.has_ctx;
        has_tags = r.has_tags;
        has_tag = r.has_tag;
        is_open = still_open' r.ep r.is_open;
        unlimited = r.unlimited;
      },
    )
