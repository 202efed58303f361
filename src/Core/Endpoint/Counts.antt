-- ===== src/Core/Endpoint/Counts.antt =====
-- What the three counters of an endpoint count.
use ucx_py.Prelude.{ℕ, ◌+◌, ◌≡◌, ◌⊎◌, inl, inr, Bool, true, false, Option, if◌then◌else◌, arith}
use ucx_py.Exceptions.{Result, is_ok}
use ucx_py.Hash.{Digest}
use ucx_py.Libs.UcxEndpoint.{UcxEndpoint}
use ucx_py.Libs.UcxEndpoint
use ucx_py.Core.Endpoint.{
  Endpoint, UserTag, closed, abort, send_start, send_end, am_send_start, recv_start, am_recv_start,
  recv_end, close_after_n_recv, set_close_callback,
}
use ucx_py.Core.Endpoint.Close.{close_start, close_sent, close_slept}
use ucx_py.Core.Endpoint.Ctrl.{handle_ctrl_msg}
use ucx_py.Core.Endpoint.Events.{
  Event, send, sent, am_send, recv, am_recv, received, close_after, ctrl, abort_now, close,
  close_msg_sent, close_woken, set_callback, endpoint_error, worker_closes, apply, Reach, here,
  next,
}

abbrev one_if : Bool → ℕ
one_if b = if b then 1 else 0

recv_start_counts :
    (sha1 : Digest) (probe : ℕ → Bool) (buffer : Result ℕ) (tag : Option UserTag) (force : Bool)
    (e : Endpoint)
    → let (r, f) = recv_start sha1 probe buffer tag force e in
      ((is_ok r ≡ false) × (f ≡ e))
      ⊎ ((is_ok r ≡ true) × (f ≡ record e { recv_count = e.recv_count + 1 }))
unfolding recv_start
recv_start_counts sha1 probe buffer tag force e = ground arith

am_recv_start_counts :
    (probe : Bool) (e : Endpoint)
    → let (r, f) = am_recv_start probe e in
      (f.send_count ≡ e.send_count)
      × (f.recv_count ≡ e.recv_count + one_if (is_ok r))
      × (f.finished_recv_count ≡ e.finished_recv_count)
unfolding am_recv_start
am_recv_start_counts true e = ground arith
am_recv_start_counts false e = ground arith

module _ (sha1 : Digest) where
  -- Does the event bring a send, a receive, to its await, without an exception? Does it end the await
  -- of a receive, without an exception?
  send_begins : Event → Endpoint → ℕ
  send_begins (send buffer tag force) e = one_if (is_ok (send_start sha1 buffer tag force e).0)
  send_begins (am_send buffer) e = one_if (is_ok (am_send_start buffer e).0)
  send_begins ev e = 0

  recv_begins : Event → Endpoint → ℕ
  recv_begins (recv probe buffer tag force) e =
      one_if (is_ok (recv_start sha1 probe buffer tag force e).0)
  recv_begins (am_recv probe) e = one_if (is_ok (am_recv_start probe e).0)
  recv_begins ev e = 0

  recv_ends : Event → ℕ
  recv_ends (received r) = one_if (is_ok r)
  recv_ends ev = 0

  -- How many sends have begun in a course, and how many receives have begun and have ended.
  unfoldable pub sends_begun : {e f : Endpoint} → Reach sha1 e f → ℕ
  unfolding send_begins
  sends_begun here = 0
  sends_begun (next {f} r ev h) = sends_begun r + send_begins ev f

  unfoldable pub recvs_begun : {e f : Endpoint} → Reach sha1 e f → ℕ
  unfolding recv_begins
  recvs_begun here = 0
  recvs_begun (next {f} r ev h) = recvs_begun r + recv_begins ev f

  unfoldable pub recvs_ended : {e f : Endpoint} → Reach sha1 e f → ℕ
  unfolding recv_ends
  recvs_ended here = 0
  recvs_ended (next r ev h) = recvs_ended r + recv_ends ev

  abbrev Counted : Event → Endpoint → Endpoint → Type 0
  Counted ev e f =
      (f.send_count ≡ e.send_count + send_begins ev e)
      × (f.recv_count ≡ e.recv_count + recv_begins ev e)
      × (f.finished_recv_count ≡ e.finished_recv_count + recv_ends ev)

  apply-Counted : (ev : Event) (e : Endpoint) → Counted ev e (apply sha1 ev e)
  unfolding send_begins recv_begins recv_ends apply closed send_start send_end am_send_start
      recv_end abort close_after_n_recv set_close_callback close_start close_sent close_slept
      handle_ctrl_msg UcxEndpoint.close
  apply-Counted (send buffer tag force) e = ground arith
  apply-Counted (sent r) e = ground arith
  apply-Counted (am_send buffer) e = ground arith
  apply-Counted (recv probe buffer tag force) e =
      elim (recv_start_counts sha1 probe buffer tag force e) [
        | inl (raised, same) ↦ rw (raised, same) (omega arith, omega arith, omega arith)
        | inr (begun, counted) ↦ rw (begun, counted) (omega arith, omega arith, omega arith)
      ]
  apply-Counted (am_recv probe) e =
      let (same, counted, same') = am_recv_start_counts probe e in
      (omega (arith, same), counted, omega (arith, same'))
  apply-Counted (received r) e = ground arith
  apply-Counted (close_after n b) e = ground arith
  apply-Counted (ctrl msg r) e = ground arith
  apply-Counted abort_now e = ground arith
  apply-Counted close e = ground arith
  apply-Counted (close_msg_sent r) e = ground arith
  apply-Counted (close_woken r) e = ground arith
  apply-Counted (set_callback f) e = ground arith
  apply-Counted (endpoint_error s) e = ground arith
  apply-Counted worker_closes e = ground arith

  -- Over any course of an endpoint `_send_count` grows by the calls of `send` and `am_send` that
  -- come to their await, `_recv_count` by those of `recv` and `am_recv`, and `_finished_recv_count`
  -- by the receives that end without an exception; nothing else changes them.
  pub Reach-counts :
      {e f : Endpoint} (r : Reach sha1 e f)
      → (f.send_count ≡ e.send_count + sends_begun r)
        × (f.recv_count ≡ e.recv_count + recvs_begun r)
        × (f.finished_recv_count ≡ e.finished_recv_count + recvs_ended r)
  unfolding sends_begun recvs_begun recvs_ended
  Reach-counts here = (omega arith, omega arith, omega arith)
  Reach-counts {e} (next {f} r ev h) =
      let (s, b, d) = Reach-counts r in
      let (s', b', d') = apply-Counted ev f in
      (omega (arith, s, s'), omega (arith, b, b'), omega (arith, d, d'))
