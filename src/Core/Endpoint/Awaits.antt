-- ===== src/Core/Endpoint/Awaits.antt =====
-- `Endpoint.close` of an endpoint whose state changes while it awaits.
use ucx_py.Prelude.{
  ℕ, ◌≡◌, ap, ◌⊎◌, inl, inr, Bool, Bool-cases, true, false, Option, none, some, [], ◌∷◌, arith,
}
use ucx_py.Exceptions.{Exn, Result, ok, err}
use ucx_py.Hash.{Digest}
use ucx_py.Struct.{IsU64, packed}
use ucx_py.Libs.UcxEndpoint.{UcxEndpoint, initialized}
use ucx_py.Libs.UcxEndpoint
use ucx_py.Core.Endpoint.{
  Endpoint, Tags, closed, abort, detach, send_start, send_end, am_send_start, am_recv_start,
  recv_end, close_after_n_recv, set_close_callback,
}
use ucx_py.Core.Endpoint.Close.{sending, sleeping, close_start, close_sent, close_slept}
use ucx_py.Core.Endpoint.Ctrl.{handle_ctrl_msg}
use ucx_py.Core.Endpoint.Events.{
  Event, send, sent, am_send, recv, am_recv, received, close_after, ctrl, abort_now, close,
  close_msg_sent, close_woken, set_callback, endpoint_error, worker_closes, apply, Reach, here,
  next,
}
use ucx_py.Core.Endpoint.Invariant.{recv_start_state}
use ucx_py.Core.Endpoint.Closing.{ClosesWell, passed_on, close_start_sends}

-- An endpoint has a handle, which UCX closes well, and a context, or neither.
abbrev Held : Option UcxEndpoint → Option ℕ → Type 0
Held none none = Unit
Held none (some c) = ⊥
Held (some b) none = ⊥
Held (some b) (some c) = ClosesWell b

-- Has the worker not closed the handle that the endpoint still has, if any?
abbrev pub usable : Endpoint → Bool
usable e = elim e.ep [ none ↦ true | some b ↦ initialized b ]

module _ (sha1 : Digest) where
  apply-Held :
      (ev : Event) (e : Endpoint)
      → Held e.ep e.ctx
      → Held (apply sha1 ev e).ep (apply sha1 ev e).ctx
  unfolding apply closed send_start send_end am_send_start am_recv_start recv_end abort
      close_after_n_recv set_close_callback close_start close_sent close_slept handle_ctrl_msg
      UcxEndpoint.err_cb UcxEndpoint.close UcxEndpoint.close_by_worker
      UcxEndpoint.set_close_callback UcxEndpoint.is_alive
  apply-Held (send buffer tag force) e h = ground arith
  apply-Held (sent r) e h = ground arith
  apply-Held (am_send buffer) e h = ground arith
  apply-Held (recv probe buffer tag force) e h =
      elim (recv_start_state sha1 probe buffer tag force e) [
        | inl same ↦ rw same h
        | inr counted ↦ rw counted h
      ]
  apply-Held (am_recv probe) e h = ground arith
  apply-Held (received r) e h = ground arith
  apply-Held (close_after n b) e h = ground arith
  apply-Held (ctrl msg r) e h = ground arith
  apply-Held abort_now e h = ground arith
  apply-Held close e h = ground arith
  apply-Held (close_msg_sent r) e h = ground arith
  apply-Held (close_woken r) e h = ground arith
  apply-Held (set_callback f) e h = ground arith
  apply-Held (endpoint_error s) e h = ground arith
  apply-Held worker_closes e h = ground arith

  Reach-Held : {e f : Endpoint} → Reach sha1 e f → Held e.ep e.ctx → Held f.ep f.ctx
  Reach-Held here h = h
  Reach-Held (next {f} r ev on) h = apply-Held ev f (Reach-Held r h)

close_sent_shut :
    (outcome : Result (Unit {0})) (f : Endpoint) → closed f ≡ true → (close_sent outcome f).1 ≡ f
unfolding close_sent closed
close_sent_shut outcome f shut = ground arith

close_sent_open :
    (outcome : Result (Unit {0})) (f : Endpoint)
    → closed f ≡ false
    → Held f.ep f.ctx
    → close_sent outcome f ≡ (ok (sleeping (passed_on outcome)), f)
unfolding close_sent closed
close_sent_open outcome f open_ h = ground arith

close_slept-usable :
    (pending : Result (Unit {0})) (g : Endpoint)
    → usable g ≡ true
    → Held g.ep g.ctx
    → close_slept pending g ≡ (pending, detach g)
unfolding close_slept UcxEndpoint.close
close_slept-usable pending g on h = ground arith

close_slept_lost :
    (pending : Result (Unit {0})) (g : Endpoint)
    → usable g ≡ false
    → close_slept pending g ≡ (err Exn.assertion_error, g)
unfolding close_slept UcxEndpoint.close
close_slept_lost pending g off = ground arith

module _ (sha1 : Digest) (e : Endpoint) (b : UcxEndpoint) (ctx : ℕ) (t : Tags)
    (has_ep : e.ep ≡ some b) (has_ctx : e.ctx ≡ some ctx) (has_tags : e.tags ≡ some t)
    (open_ : closed e ≡ false) (bound : IsU64 e.send_count) (first : e.shutting_down_peer ≡ false)
    (well : ClosesWell b) where
  starts-Held : Held (close_start e).1.ep (close_start e).1.ctx
  starts-Held =
      rw (close_start_sends e b ctx has_ep has_ctx open_ t has_tags bound first, has_ep, has_ctx)
        well

  -- Let UCX close the handle of an endpoint well, and let the endpoint be open, with tags and fewer
  -- than 2 ^ 64 sent messages, and its peer not yet be told. `close` then sends opcode 1 and the
  -- number of sent messages on the control tag. Let any events happen until the sending ends. If
  -- the endpoint has been closed by then, `close` changes nothing more, so that a handle which the
  -- endpoint still has stays there. Otherwise it sleeps, and after any further events lets go of
  -- its handle and context and raises just what the sending raised, if that is no UCXError; only
  -- where the worker has closed the handle during the sleep does it raise AssertionError and change
  -- nothing.
  pub close-awaits :
      (outcome : Result (Unit {0})) {f g : Endpoint}
      → Reach sha1 (close_start e).1 f
      → Reach sha1 f g
      → ((close_start e).0 ≡ ok (sending (packed (1 ∷ e.send_count ∷ [])) t.ctrl_send))
        × (((closed f ≡ true) × ((close_sent outcome f).1 ≡ f))
            ⊎ ((close_sent outcome f ≡ (ok (sleeping (passed_on outcome)), f))
                × (((usable g ≡ true)
                      × (close_slept (passed_on outcome) g ≡ (passed_on outcome, detach g)))
                    ⊎ ((usable g ≡ false)
                        × (close_slept (passed_on outcome) g ≡ (err Exn.assertion_error, g))))))
  close-awaits outcome {f} {g} r r' =
      let f_held = Reach-Held sha1 r starts-Held in
      let pending = passed_on outcome in
      (
        ap (λ s. s.0) (close_start_sends e b ctx has_ep has_ctx open_ t has_tags bound first),
        elim (Bool-cases (closed f)) [
          | inl shut ↦ inl (shut, close_sent_shut outcome f shut)
          | inr live ↦ inr (
            close_sent_open outcome f live f_held,
            elim (Bool-cases (usable g)) [
              | inl on ↦ inl (on, close_slept-usable pending g on (Reach-Held sha1 r' f_held))
              | inr off ↦ inr (off, close_slept_lost pending g off)
            ],
          )
        ],
      )
