-- ===== src/Core/Pair/Lossless.antt =====
-- No message is lost between an endpoint that closes after sending and its peer: the counts that the
-- shutdown message is about, kept by each move.
use ucx_py.Prelude.{
  ◌↔◌, ℕ, ◌+◌, ◌≤◌, ◌<◌, ◌≡◌, refl, true, false, Option, none, some, [], ◌∷◌, arith, inl, inr, ◌⊎◌,
  sym, ◌∙◌, ◌↔◌,
}
use ucx_py.Exceptions.{ok}
use ucx_py.Hash.{Digest}
use ucx_py.Struct.{IsU64, packed}
use ucx_py.Libs.UcxEndpoint.{UcxEndpoint}
use ucx_py.Core.Endpoint.{Endpoint, Tags, init, closed, abort, recv_end, close_after_n_recv}
use ucx_py.Core.Endpoint.Close.{close_start}
use ucx_py.Core.Endpoint.Ctrl.{handle_ctrl_msg}
use ucx_py.Core.Endpoint.Shutdown.{shutdown_received, limit_set, recv_end_limit}
use ucx_py.Core.Pair.{
  Notice, unsent, in_flight, delivered, Pair, Move, send_message, am_send_message, close_sender,
  sender_event, receiver_event, arrive, tell, deliver, step, CanMove, Reach, here, next, sends,
  noticed,
}
use ucx_py.Core.Pair.Steps.{
  SameSender, SameReceiver, send_start-counts, am_send_start-counts, quiet-SameSender,
  harmless-SameReceiver, close_start-sends,
}

-- No end has been told to the endpoint.
abbrev IsUntold : Endpoint → Type 0
IsUntold r = (closed r ≡ false) × (r.close_after ≡ none)

-- An end has been told: after the last of k messages the endpoint is closed, before it waits.
abbrev IsTold : ℕ → Endpoint → Type 0
IsTold k r =
    ((closed r ≡ true) × (r.finished_recv_count ≡ k))
    ⊎ ((closed r ≡ false) × (r.close_after ≡ some k) × (r.finished_recv_count < k))

-- Where the shutdown message is, by what both endpoints know.
abbrev Stage : Notice → Endpoint → Endpoint → Type 0
Stage unsent s r = IsUntold r
Stage (in_flight msg) s r =
    (s.shutting_down_peer ≡ true)
    × (msg ≡ packed (1 ∷ s.send_count ∷ []))
    × IsU64 s.send_count
    × IsUntold r
Stage delivered s r = (s.shutting_down_peer ≡ true) × IsTold s.send_count r

-- Each message that was sent is in flight or has been received.
abbrev IsCounted : Pair → Type 0
IsCounted p = p.sender.send_count ≡ p.messages + p.receiver.finished_recv_count

abbrev Inv : Pair → Type 0
Inv p = IsCounted p × Stage p.notice p.sender p.receiver

Stage-SameSender : (n : Notice) (e f r : Endpoint) → SameSender e f → Stage n e r → Stage n f r
Stage-SameSender unsent e f r (same, same') s = s
Stage-SameSender (in_flight msg) e f r (same, same') s = rw (same, same') s
Stage-SameSender delivered e f r (same, same') s = rw (same, same') s

Stage-SameReceiver : (n : Notice) (s e f : Endpoint) → SameReceiver e f → Stage n s e → Stage n s f
Stage-SameReceiver unsent s e f (a, b, c) h = rw (a, b) h
Stage-SameReceiver (in_flight msg) s e f (a, b, c) h = rw (a, b) h
Stage-SameReceiver delivered s e f (a, b, c) h = rw (a, b, c) h

Stage-kept :
    (n : Notice) (e f r : Endpoint)
    → f.send_count ≡ e.send_count
    → (e.shutting_down_peer ≡ true → f.shutting_down_peer ≡ true)
    → Stage n e r
    → Stage n f r
Stage-kept unsent e f r same kept s = s
Stage-kept (in_flight msg) e f r same kept (a, b, c, u) = (kept a, rw same b, rw same c, u)
Stage-kept delivered e f r same kept (a, b) = (kept a, rw same b)

-- A sender that is not shutting its peer down has sent no shutdown message.
Stage-unsent :
    (n : Notice) (e r : Endpoint)
    → e.shutting_down_peer ≡ false
    → Stage n e r
    → (n ≡ unsent) × IsUntold r
Stage-unsent unsent e r h s = (refl, s)
Stage-unsent (in_flight msg) e r h s = ground arith
Stage-unsent delivered e r h s = ground arith

Stage-open :
    (n : Notice) (e f r : Endpoint) → e.shutting_down_peer ≡ false → Stage n e r → Stage n f r
Stage-open n e f r h s = let (none_, u) = Stage-unsent n e r h s in rw none_ u

close_after_n_recv-count :
    (k : ℕ) (e : Endpoint)
    → (close_after_n_recv k true e).1.finished_recv_count ≡ e.finished_recv_count
unfolding close_after_n_recv abort
close_after_n_recv-count k e = ground arith

recv_end-count :
    (e : Endpoint) → (recv_end (ok tt) e).1.finished_recv_count ≡ e.finished_recv_count + 1
unfolding recv_end abort
recv_end-count e = ground arith

recv_end-IsUntold : (e : Endpoint) → IsUntold e → IsUntold (recv_end (ok tt) e).1
unfolding recv_end closed abort
recv_end-IsUntold e u = ground arith

-- The shutdown message reaches an endpoint that has finished at most k receives.
told :
    (k : ℕ) (r : Endpoint)
    → IsU64 k
    → r.finished_recv_count ≤ k
    → IsUntold r
    → let f = (handle_ctrl_msg (packed (1 ∷ k ∷ [])) (ok tt) r).1 in
      (f.finished_recv_count ≡ r.finished_recv_count) × IsTold k f
unfolding closed
told k r bound early (open_, unset) =
    rw (shutdown_received k r bound open_) (elim (limit_set k r unset early) [
      | inl (last, shut) ↦
          (close_after_n_recv-count k r, inl (shut, close_after_n_recv-count k r ∙ sym last))
      | inr (short, state) ↦ rw state (refl, inr (open_, refl, short))
    ])

-- One more of the messages arrives.
arrived :
    (n : Notice) (s r : Endpoint)
    → r.finished_recv_count < s.send_count
    → Stage n s r
    → Stage n s (recv_end (ok tt) r).1
arrived unsent s r short u = recv_end-IsUntold r u
arrived (in_flight msg) s r short (a, b, c, u) = (a, b, c, recv_end-IsUntold r u)
arrived delivered s r short (a, t) = ground (arith, recv_end-count r, recv_end_limit s.send_count r)

closing :
    (n : Notice) (s r : Endpoint)
    → IsU64 s.send_count
    → Stage n s r
    → let (o, f) = close_start s in Stage (noticed (sends o) n) f r
closing n s r bound h =
    let (same, which) = close_start-sends s bound in
    elim which [
      | inl (none_, kept) ↦ rw none_ (Stage-kept n s (close_start s).1 r same kept h)
      | inr (some_, fresh, now) ↦
          rw (some_, same) (now, refl, bound, (Stage-unsent n s r fresh h).1)
    ]

delivering :
    (n : Notice) (p : Pair)
    → IsCounted p
    → Stage n p.sender p.receiver
    → p.notice ≡ n
    → Inv (deliver n p)
delivering unsent p c s e = rw e (c, s)
delivering (in_flight msg) p c (a, b, bound, u) e =
    let (same, t) = told p.sender.send_count p.receiver bound (omega (arith, c)) u in
    rw b (rw same c, (a, t))
delivering delivered p c s e = rw e (c, s)

-- Two new endpoints.
abbrev pub connected : UcxEndpoint → UcxEndpoint → ℕ → ℕ → Option Tags → Option Tags → Pair
connected b b' c c' t t' = record {
  sender = init b c t;
  receiver = init b' c' t';
  messages = 0;
  notice = unsent;
}

told-closed :
    (n : Notice) (m : ℕ) (s r : Endpoint)
    → s.send_count ≡ m + r.finished_recv_count
    → Stage n s r
    → (closed r ≡ true) ↔ ((n ≡ delivered) × (m ≡ 0))
told-closed unsent m s r c (a, b) = (λ h. ground arith, λ (h, h'). ground arith)
told-closed (in_flight msg) m s r c (a, b, d, (e, f)) = (λ h. ground arith, λ (h, h'). ground arith)
told-closed delivered m s r c (a, inl (shut, all)) = (λ h. (refl, omega (arith, c, all)), λ h. shut)
told-closed delivered m s r c (a, inr (open_, limit, short)) =
    (λ h. ground arith, λ (h, h'). ground arith)

module _ (sha1 : Digest) where
  step-Inv : (m : Move) (p : Pair) → CanMove sha1 m p → Inv p → Inv (step sha1 m p)
  unfolding step
  step-Inv (send_message buffer tag force) p can (c, s) = (
    ground (arith, send_start-counts sha1 buffer tag force p.sender),
    Stage-open p.notice p.sender _ p.receiver can s,
  )
  step-Inv (am_send_message buffer) p can (c, s) = (
    ground (arith, am_send_start-counts sha1 buffer p.sender),
    Stage-open p.notice p.sender _ p.receiver can s,
  )
  step-Inv close_sender p can (c, s) =
      (rw (close_start-sends p.sender can).0 c, closing p.notice p.sender p.receiver can s)
  step-Inv (sender_event ev) p (quiet_, enabled) (c, s) =
      let same = quiet-SameSender sha1 ev p.sender quiet_ in
      (rw same.0 c, Stage-SameSender p.notice p.sender _ p.receiver same s)
  step-Inv (receiver_event ev) p (harmless_, enabled) (c, s) =
      let same = harmless-SameReceiver sha1 ev p.receiver harmless_ in
      (rw same.2 c, Stage-SameReceiver p.notice p.sender p.receiver _ same s)
  step-Inv arrive p (some_, begun) (c, s) = (
    rw (recv_end-count p.receiver) (omega (arith, c, some_)),
    arrived p.notice p.sender p.receiver (omega (arith, c, some_)) s,
  )
  step-Inv tell p can (c, s) = delivering p.notice p c s refl

  Reach-Inv : {p q : Pair} → Inv p → Reach sha1 p q → Inv q
  Reach-Inv i here = i
  Reach-Inv i (next r m can) = step-Inv m _ can (Reach-Inv i r)

  -- Between two new endpoints, of which the receiver is open, let the sender send no message after
  -- its first `close` and fewer than 2 ^ 64 before it, and let all receives of the receiver end
  -- well and nothing but the shutdown message close it, set a limit on it or set its close
  -- callback; in every state that they come to, the messages that were sent are those in flight and
  -- those whose receive has ended, and the receiver is closed exactly when it has got the shutdown
  -- message and no message is in flight.
  pub Reach-lossless :
      (b b' : UcxEndpoint) (c c' : ℕ) (t t' : Option Tags) (q : Pair)
      → closed (init b' c' t') ≡ false
      → Reach sha1 (connected b b' c c' t t') q
      → (q.sender.send_count ≡ q.messages + q.receiver.finished_recv_count)
        × ((closed q.receiver ≡ true) ↔ ((q.notice ≡ delivered) × (q.messages ≡ 0)))
  unfolding init
  Reach-lossless b b' c c' t t' q open_ r =
      let i : Inv q = Reach-Inv (refl, (open_, refl)) r in
      (i.0, told-closed q.notice q.messages q.sender q.receiver i.0 i.1)
