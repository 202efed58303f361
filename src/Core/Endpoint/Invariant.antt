-- ===== src/Core/Endpoint/Invariant.antt =====
-- What every event of an endpoint keeps.
use ucx_py.Prelude.{
  ℕ, ◌+◌, ◌<◌, ◌≤◌, ◌≡◌, refl, ◌∙◌, ◌⊎◌, inl, inr, Bool, true, Option, some, arith,
}
use ucx_py.Exceptions.{Result}
use ucx_py.Hash.{Digest}
use ucx_py.Libs.UcxEndpoint.{UcxEndpoint}
use ucx_py.Libs.UcxEndpoint
use ucx_py.Core.Endpoint.{
  Endpoint, Tags, UserTag, init, closed, abort, send_start, send_end, am_send_start, recv_start,
  am_recv_start, recv_end, close_after_n_recv, set_close_callback,
}
use ucx_py.Core.Endpoint.Close.{close_start, close_sent, close_slept}
use ucx_py.Core.Endpoint.Ctrl.{handle_ctrl_msg}
use ucx_py.Core.Endpoint.Events.{
  Event, send, sent, am_send, recv, am_recv, received, close_after, ctrl, abort_now, close,
  close_msg_sent, close_woken, set_callback, endpoint_error, worker_closes, Enabled, apply, Reach,
  here, next, Inv,
}

-- From e to f: what is closed stays closed, the peer that was told to shut down stays told, the
-- counts do not fall, a limit that was set stays as it is, and so do the tags.
pub record Keeps (e f : Endpoint) : Type 0 where
  pub closed_stays : closed e ≡ true → closed f ≡ true
  pub told_stays : e.shutting_down_peer ≡ true → f.shutting_down_peer ≡ true
  pub finished_grows : e.finished_recv_count ≤ f.finished_recv_count
  pub sent_grows : e.send_count ≤ f.send_count
  pub limit_stays : (n : ℕ) → e.close_after ≡ some n → f.close_after ≡ some n
  pub tags_stay : f.tags ≡ e.tags

-- A receive that begins counts itself, or raises and leaves the endpoint as it was.
pub recv_start_state :
    (sha1 : Digest) (probe : ℕ → Bool) (buffer : Result ℕ) (tag : Option UserTag) (force : Bool)
    (e : Endpoint)
    → let f = (recv_start sha1 probe buffer tag force e).1 in
      (f ≡ e) ⊎ (f ≡ record e { recv_count = e.recv_count + 1 })
unfolding recv_start
recv_start_state sha1 probe buffer tag force e = ground arith

module _ (sha1 : Digest) where
  pub apply-Keeps : (ev : Event) (e : Endpoint) → Enabled sha1 ev e → Keeps e (apply sha1 ev e)
  unfolding apply closed send_start send_end am_send_start am_recv_start recv_end abort
      close_after_n_recv set_close_callback close_start close_sent close_slept handle_ctrl_msg
      UcxEndpoint.err_cb UcxEndpoint.close UcxEndpoint.close_by_worker
      UcxEndpoint.set_close_callback UcxEndpoint.is_alive
  apply-Keeps (send buffer tag force) e h = ground arith
  apply-Keeps (sent r) e h = ground arith
  apply-Keeps (am_send buffer) e h = ground arith
  apply-Keeps (recv probe buffer tag force) e h =
      elim (recv_start_state sha1 probe buffer tag force e) [
        | inl same ↦ rw same (ground arith)
        | inr counted ↦ rw counted (ground arith)
      ]
  apply-Keeps (am_recv probe) e h = ground arith
  apply-Keeps (received r) e h = ground arith
  apply-Keeps (close_after n b) e h = ground arith
  apply-Keeps (ctrl msg r) e h = ground arith
  apply-Keeps abort_now e h = ground arith
  apply-Keeps close e h = ground arith
  apply-Keeps (close_msg_sent r) e h = ground arith
  apply-Keeps (close_woken r) e h = ground arith
  apply-Keeps (set_callback f) e h = ground arith
  apply-Keeps (endpoint_error s) e h = ground arith
  apply-Keeps worker_closes e h = ground arith

  -- Every event keeps the invariant.
  pub apply-Inv : (ev : Event) (e : Endpoint) → Enabled sha1 ev e → Inv e → Inv (apply sha1 ev e)
  unfolding apply closed send_start send_end am_send_start am_recv_start recv_end abort
      close_after_n_recv set_close_callback close_start close_sent close_slept handle_ctrl_msg
      UcxEndpoint.err_cb UcxEndpoint.close UcxEndpoint.close_by_worker
      UcxEndpoint.set_close_callback UcxEndpoint.is_alive
  apply-Inv (send buffer tag force) e h v = ground arith
  apply-Inv (sent r) e h v = ground arith
  apply-Inv (am_send buffer) e h v = ground arith
  apply-Inv (recv probe buffer tag force) e h v =
      elim (recv_start_state sha1 probe buffer tag force e) [
        | inl same ↦ rw same v
        | inr counted ↦ rw counted (ground arith)
      ]
  apply-Inv (am_recv probe) e h v = ground arith
  apply-Inv (received r) e h v = ground arith
  apply-Inv (close_after n b) e h v = ground arith
  apply-Inv (ctrl msg r) e h v = ground arith
  apply-Inv abort_now e h v = ground arith
  apply-Inv close e h v = ground arith
  apply-Inv (close_msg_sent r) e h v = ground arith
  apply-Inv (close_woken r) e h v = ground arith
  apply-Inv (set_callback f) e h v = ground arith
  apply-Inv (endpoint_error s) e h v = ground arith
  apply-Inv worker_closes e h v = ground arith

  Keeps-trans : {e f g : Endpoint} → Keeps e f → Keeps f g → Keeps e g
  Keeps-trans k l = record {
    closed_stays = λ h. l.closed_stays (k.closed_stays h);
    told_stays = λ h. l.told_stays (k.told_stays h);
    finished_grows = omega arith;
    sent_grows = omega arith;
    limit_stays = λ n h. l.limit_stays n (k.limit_stays n h);
    tags_stay = l.tags_stay ∙ k.tags_stay;
  }

  Keeps-refl : (e : Endpoint) → Keeps e e
  Keeps-refl e = record {
    closed_stays = λ h. h;
    told_stays = λ h. h;
    finished_grows = omega arith;
    sent_grows = omega arith;
    limit_stays = λ n h. h;
    tags_stay = refl;
  }

  pub Reach-Keeps : {e f : Endpoint} → Reach sha1 e f → Keeps e f
  Reach-Keeps {e} here = Keeps-refl e
  Reach-Keeps (next {f} r ev h) = Keeps-trans (Reach-Keeps r) (apply-Keeps ev f h)

  Reach-Inv : {e f : Endpoint} → Reach sha1 e f → Inv e → Inv f
  Reach-Inv here v = v
  Reach-Inv (next {f} r ev h) v = apply-Inv ev f h (Reach-Inv r v)

  -- In every state that a new endpoint comes to, no more receives have ended than begun; and if the
  -- endpoint is to close after n messages, then fewer than n have come or it is closed.
  pub Reach-init-Inv :
      (b : UcxEndpoint) (ctx : ℕ) (tags : Option Tags) {f : Endpoint}
      → Reach sha1 (init b ctx tags) f
      → Inv f
  unfolding init
  Reach-init-Inv b ctx tags r = Reach-Inv r (record { counted = omega arith; on_time = tt })

  limit_kept :
      (f : Endpoint) (n : ℕ)
      → Inv f
      → f.close_after ≡ some n
      → (f.finished_recv_count < n) ⊎ (closed f ≡ true)
  limit_kept f n v e = ground arith

  -- A limit n on the receives of an endpoint that satisfies the invariant is never changed, and in
  -- every later state fewer than n receives have ended or the endpoint is closed.
  pub Reach-limit :
      {e f : Endpoint} (n : ℕ)
      → Reach sha1 e f
      → Inv e
      → e.close_after ≡ some n
      → (f.close_after ≡ some n) × ((f.finished_recv_count < n) ⊎ (closed f ≡ true))
  Reach-limit {f} n r v limit =
      let same = (Reach-Keeps r).limit_stays n limit in (same, limit_kept f n (Reach-Inv r v) same)
