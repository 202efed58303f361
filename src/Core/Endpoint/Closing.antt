-- ===== src/Core/Endpoint/Closing.antt =====
-- What `Endpoint.close` achieves.
use ucx_py.Prelude.{ℕ, ◌≡◌, ◌≢◌, true, false, none, some, [], ◌∷◌, arith}
use ucx_py.Exceptions.{Exn, Result, ok, err, is_ucx_error}
use ucx_py.Hash.{Digest}
use ucx_py.Struct.{Bytes, IsU64, packed}
use ucx_py.Libs.Ucs.{UcsStatus}
use ucx_py.Libs.UcxEndpoint.{UcxEndpoint, CloseMode}
use ucx_py.Core.CtrlMsg.{serialize-packed}
use ucx_py.Core.Endpoint.{Endpoint, Tags, closed}
use ucx_py.Core.Endpoint.Close.{sending, sleeping, close_start}
use ucx_py.Core.Endpoint.Events.{Reach}
use ucx_py.Core.Endpoint.Invariant.{Reach-Keeps}

-- The exceptions of the sending that `close` passes on.
abbrev pub passed_on : Result (Unit {0}) → Result (Unit {0})
passed_on (ok r) = ok r
passed_on (err x) = elim (is_ucx_error x) [ true ↦ ok tt | false ↦ err x ]

-- The close of the handle succeeds at once in both modes.
abbrev pub ClosesWell : UcxEndpoint → Type 0
ClosesWell b =
    (b.ucp_ep_close_nb CloseMode.flush ≡ UcsStatus.ucs_ok)
    × (b.ucp_ep_close_nb CloseMode.force ≡ UcsStatus.ucs_ok)

module _ (e : Endpoint) (b : UcxEndpoint) (ctx : ℕ) (has_ep : e.ep ≡ some b)
    (has_ctx : e.ctx ≡ some ctx) (open_ : closed e ≡ false) where
  -- The first call of `close` on an open endpoint with tags and fewer than 2 ^ 64 sent messages
  -- sends one message, on the control tag: opcode 1 and the number of messages sent.
  pub close_start_sends :
      (t : Tags)
      → e.tags ≡ some t
      → IsU64 e.send_count
      → e.shutting_down_peer ≡ false
      → close_start e ≡ (
        ok (sending (packed (1 ∷ e.send_count ∷ [])) t.ctrl_send),
        record e { shutting_down_peer = true },
      )
  unfolding close_start closed
  close_start_sends t has_tags bound first =
      ground (arith, serialize-packed 1 e.send_count (omega arith) bound)

  -- The first call of `close` on an open endpoint without tags and with fewer than 2 ^ 64 sent
  -- messages sends nothing, and sleeps before it aborts the endpoint and raises TypeError.
  pub close_start_untagged :
      e.tags ≡ none
      → IsU64 e.send_count
      → e.shutting_down_peer ≡ false
      → close_start e ≡ (ok (sleeping (err Exn.type_error)), record e { shutting_down_peer = true })
  unfolding close_start closed
  close_start_untagged no_tags bound first =
      ground (arith, serialize-packed 1 e.send_count (omega arith) bound)

told_again :
    (f : Endpoint) (msg : Bytes) (tag : ℕ)
    → f.shutting_down_peer ≡ true
    → (close_start f).0 ≢ ok (sending msg tag)
unfolding close_start closed
told_again f msg tag told sends = ground arith

told_first :
    (e : Endpoint) (msg : Bytes) (tag : ℕ)
    → (close_start e).0 ≡ ok (sending msg tag)
    → (close_start e).1.shutting_down_peer ≡ true
unfolding close_start closed
told_first e msg tag sends = ground arith

-- After a call of `close` has sent its shutdown message, no call of `close` in any later state
-- sends one.
pub told_once :
    (sha1 : Digest) (e : Endpoint) {f : Endpoint} (msg msg' : Bytes) (tag tag' : ℕ)
    → (close_start e).0 ≡ ok (sending msg tag)
    → Reach sha1 (close_start e).1 f
    → (close_start f).0 ≢ ok (sending msg' tag')
told_once sha1 e {f} msg msg' tag tag' sends r =
    told_again f msg' tag' ((Reach-Keeps sha1 r).told_stays (told_first e msg tag sends))
