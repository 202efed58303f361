-- ===== src/Core/Pair/Steps.antt =====
-- What each move does to the counts of the two endpoints.
use ucx_py.Prelude.{
  ℕ, ◌≡◌, refl, suc, Bool, true, false, Option, none, some, [], ◌∷◌, arith, inl, inr, if◌then◌else◌,
  ◌⊎◌,
}
use ucx_py.Exceptions.{Result, is_ok}
use ucx_py.Hash.{Digest}
use ucx_py.Struct.{IsU64, packed}
use ucx_py.Core.CtrlMsg.{serialize-packed}
use ucx_py.Core.Endpoint.{
  Endpoint, UserTag, closed, abort, send_start, send_end, am_send_start, recv_start, am_recv_start,
  recv_end, close_after_n_recv, set_close_callback,
}
use ucx_py.Core.Endpoint.Close.{close_start, close_sent, close_slept}
use ucx_py.Core.Endpoint.Ctrl.{handle_ctrl_msg}
use ucx_py.Core.Endpoint.Events.{
  send, sent, am_send, recv, am_recv, received, close_after, ctrl, abort_now, close, close_msg_sent,
  close_woken, set_callback, endpoint_error, worker_closes, Enabled, apply,
}
use ucx_py.Core.Endpoint.Events
use ucx_py.Core.Endpoint.Invariant.{recv_start_state}
use ucx_py.Core.Pair.{quiet, harmless, sends}

-- The sender's side of a state.
abbrev pub SameSender : Endpoint → Endpoint → Type 0
SameSender e f = (f.send_count ≡ e.send_count) × (f.shutting_down_peer ≡ e.shutting_down_peer)

-- The receiver's side of a state.
abbrev pub SameReceiver : Endpoint → Endpoint → Type 0
SameReceiver e f =
    (closed f ≡ closed e)
    × (f.close_after ≡ e.close_after)
    × (f.finished_recv_count ≡ e.finished_recv_count)

module _ (sha1 : Digest) where
  pub send_start-counts :
      (buffer : Result ℕ) (tag : Option UserTag) (force : Bool) (e : Endpoint)
      → let (r, f) = send_start sha1 buffer tag force e in
        (f.send_count ≡ (if is_ok r then suc e.send_count else e.send_count))
        × (f.shutting_down_peer ≡ e.shutting_down_peer)
        × SameReceiver e f
  unfolding send_start closed
  send_start-counts buffer tag force e = ground arith

  pub am_send_start-counts :
      (buffer : Result ℕ) (e : Endpoint)
      → let (r, f) = am_send_start buffer e in
        (f.send_count ≡ (if is_ok r then suc e.send_count else e.send_count))
        × (f.shutting_down_peer ≡ e.shutting_down_peer)
        × SameReceiver e f
  unfolding am_send_start closed
  am_send_start-counts buffer e = ground arith

  recv_start-same :
      (probe : ℕ → Bool) (buffer : Result ℕ) (tag : Option UserTag) (force : Bool) (e : Endpoint)
      → let f = (recv_start sha1 probe buffer tag force e).1 in SameSender e f × SameReceiver e f
  unfolding closed
  recv_start-same probe buffer tag force e = elim (recv_start_state sha1 probe buffer tag force e) [
    | inl same ↦ rw same ((refl, refl), (refl, refl, refl))
    | inr counted ↦ rw counted ((refl, refl), (refl, refl, refl))
  ]

  pub quiet-SameSender :
      (ev : Events.Event) (e : Endpoint) → quiet ev ≡ true → SameSender e (apply sha1 ev e)
  unfolding apply closed send_end am_recv_start recv_end abort close_after_n_recv set_close_callback
      close_sent close_slept handle_ctrl_msg
  quiet-SameSender (recv probe buffer tag force) e q = (recv_start-same probe buffer tag force e).0
  quiet-SameSender (send buffer tag force) e q = ground arith
  quiet-SameSender (am_send buffer) e q = ground arith
  quiet-SameSender close e q = ground arith
  quiet-SameSender (sent r) e q = ground arith
  quiet-SameSender (am_recv probe) e q = ground arith
  quiet-SameSender (received r) e q = ground arith
  quiet-SameSender (close_after n b) e q = ground arith
  quiet-SameSender (ctrl msg r) e q = ground arith
  quiet-SameSender abort_now e q = ground arith
  quiet-SameSender (close_msg_sent r) e q = ground arith
  quiet-SameSender (close_woken r) e q = ground arith
  quiet-SameSender (set_callback f) e q = ground arith
  quiet-SameSender (endpoint_error s) e q = ground arith
  quiet-SameSender worker_closes e q = ground arith

  pub harmless-SameReceiver :
      (ev : Events.Event) (e : Endpoint) → harmless ev ≡ true → SameReceiver e (apply sha1 ev e)
  unfolding apply closed send_end am_recv_start
  harmless-SameReceiver (send buffer tag force) e q = (send_start-counts buffer tag force e).2
  harmless-SameReceiver (am_send buffer) e q = (am_send_start-counts buffer e).2
  harmless-SameReceiver (recv probe buffer tag force) e q =
      (recv_start-same probe buffer tag force e).1
  harmless-SameReceiver (sent r) e q = ground arith
  harmless-SameReceiver (am_recv probe) e q = ground arith
  harmless-SameReceiver _ e q = ground arith

-- A call of `close` sends one message at most, on the first call, with the count of messages sent.
pub close_start-sends :
    (e : Endpoint)
    → IsU64 e.send_count
    → let (r, f) = close_start e in
      (f.send_count ≡ e.send_count)
      × (((sends r ≡ none) × (e.shutting_down_peer ≡ true → f.shutting_down_peer ≡ true))
          ⊎ ((sends r ≡ some (packed (1 ∷ e.send_count ∷ [])))
              × (e.shutting_down_peer ≡ false)
              × (f.shutting_down_peer ≡ true)))
unfolding close_start closed
close_start-sends e bound = ground (arith, serialize-packed 1 e.send_count (omega arith) bound)
