-- ===== src/Core/Pair/Late.antt =====
-- A message that is sent while the sender's `close` is going on: the code does not refuse it.
use ucx_py.Prelude.{ℕ, ◌+◌, ◌≡◌, refl, ◌∙◌, true, false, Option, none, some, arith}
use ucx_py.Exceptions.{ok, is_ok}
use ucx_py.Hash.{Digest}
use ucx_py.Libs.UcxEndpoint.{UcxEndpoint}
use ucx_py.Libs.UcxEndpoint
use ucx_py.Core.Endpoint.{Endpoint, Tags, init, closed, send_start}
use ucx_py.Core.Pair.{Pair, Reach, step, send_message}
use ucx_py.Core.Pair.Steps.{send_start-counts}
use ucx_py.Core.Pair.Lossless.{connected, Reach-lossless}

module _ (sha1 : Digest) where
  -- An open endpoint sends, whether its peer has been told to shut down or not.
  send_start_open :
      (n : ℕ) (e : Endpoint) (t : Tags)
      → closed e ≡ false
      → e.tags ≡ some t
      → is_ok (send_start sha1 (ok n) none false e).0 ≡ true
  unfolding send_start closed UcxEndpoint.raise_on_error UcxEndpoint.is_alive
  send_start_open n e t open_ h = ground arith

  -- In a state that two new endpoints come to by the moves of the relation, where the receiver is
  -- closed and the sender is open with its tags, a `send` of a buffer is not refused: it leaves a
  -- message in flight to the closed receiver, and the sender has sent one message more than the
  -- receiver has finished.
  pub send_message_late :
      (b b' : UcxEndpoint) (c c' : ℕ) (t t' : Option Tags) (q : Pair) (n : ℕ) (u : Tags)
      → closed (init b' c' t') ≡ false
      → Reach sha1 (connected b b' c c' t t') q
      → closed q.receiver ≡ true
      → closed q.sender ≡ false
      → q.sender.tags ≡ some u
      → let p = step sha1 (send_message (ok n) none false) q in
        (p.messages ≡ 1)
        × (closed p.receiver ≡ true)
        × (p.sender.send_count ≡ p.receiver.finished_recv_count + 1)
  unfolding step
  send_message_late b b' c c' t t' q n u new r shut open_ h =
      let (counted, (told, untold)) = Reach-lossless sha1 b b' c c' t t' q new r in
      let (delivered_, none_) = told shut in
      let sent = send_start_open n q.sender u open_ h in
      let counts = (send_start-counts sha1 (ok n) none false q.sender).0 in
      (rw (sent, none_) refl, shut, rw sent at counts ∙ omega (arith, counted, none_))
