-- ===== src/Core/Endpoint/Shutdown.antt =====
-- The shutdown protocol: a control message tells an endpoint after how many messages to close.
use ucx_py.Prelude.{
  ℕ, zero, suc, ◌+◌, ◌≤◌, ◌<◌, ◌≡◌, refl, true, false, none, some, [], ◌∷◌, arith, leb, ◌⊎◌, inl,
  inr,
}
use ucx_py.Exceptions.{Exn, ok, err}
use ucx_py.Struct.{IsU64, packed}
use ucx_py.Core.CtrlMsg.{deserialize-packed}
use ucx_py.Core.Endpoint.{Endpoint, closed, recv_end, close_after_n_recv}
use ucx_py.Core.Endpoint.Ctrl.{handle_ctrl_msg}

-- The state after j more receives have ended well.
pub receives : ℕ → Endpoint → Endpoint
receives zero e = e
receives (suc j) e = receives j (recv_end (ok tt) e).1

recv_end-closed : (e : Endpoint) → closed e ≡ true → closed (recv_end (ok tt) e).1 ≡ true
unfolding recv_end closed
recv_end-closed e h = ground arith

receives-closed : (j : ℕ) (e : Endpoint) → closed e ≡ true → closed (receives j e) ≡ true
unfolding receives
receives-closed zero e h = h
receives-closed (suc j) e h = receives-closed j (recv_end (ok tt) e).1 (recv_end-closed e h)

-- One receive short of the limit the endpoint stays open; at the limit it closes.
pub recv_end_limit :
    (k : ℕ) (e : Endpoint)
    → closed e ≡ false
    → e.close_after ≡ some k
    → e.finished_recv_count < k
    → let f = (recv_end (ok tt) e).1 in
      (f.finished_recv_count ≡ e.finished_recv_count + 1)
      × (f.close_after ≡ some k)
      × (closed f ≡ leb k (e.finished_recv_count + 1))
unfolding recv_end closed
recv_end_limit k e open_ limit short = ground arith

receives_limit :
    (j k : ℕ) (e : Endpoint)
    → closed e ≡ false
    → e.close_after ≡ some k
    → e.finished_recv_count < k
    → closed (receives j e) ≡ leb k (e.finished_recv_count + j)
unfolding receives
receives_limit zero k e open_ limit short = ground arith
receives_limit (suc j) k e open_ limit short = ground (
  arith,
  recv_end_limit k e open_ limit short,
  receives_limit j k (recv_end (ok tt) e).1,
  receives-closed j (recv_end (ok tt) e).1,
)

pub shutdown_received :
    (k : ℕ) (e : Endpoint)
    → IsU64 k
    → closed e ≡ false
    → handle_ctrl_msg (packed (1 ∷ k ∷ [])) (ok tt) e ≡ close_after_n_recv k true e
unfolding handle_ctrl_msg
shutdown_received k e bound open_ = rw (open_, deserialize-packed 1 k (omega arith) bound)

closed_limit : (k : ℕ) (e : Endpoint) → closed (record e { close_after = some k }) ≡ closed e
unfolding closed
closed_limit k e = refl

pub limit_set :
    (k : ℕ) (e : Endpoint)
    → e.close_after ≡ none
    → e.finished_recv_count ≤ k
    → let f = (close_after_n_recv k true e).1 in
      ((k ≡ e.finished_recv_count) × (closed f ≡ true))
      ⊎ ((e.finished_recv_count < k) × (f ≡ record e { close_after = some k }))
unfolding close_after_n_recv closed
limit_set k e unset early = ground arith

-- Let an open endpoint on which no limit is set have finished at most k receives; after the control
-- message of a peer that has sent k < 2 ^ 64 messages, and j more receives that end well, the
-- endpoint is closed exactly when k receives have ended.
pub shutdown_after_all :
    (j k : ℕ) (e : Endpoint)
    → IsU64 k
    → closed e ≡ false
    → e.close_after ≡ none
    → e.finished_recv_count ≤ k
    → closed (receives j (handle_ctrl_msg (packed (1 ∷ k ∷ [])) (ok tt) e).1)
      ≡ leb k (e.finished_recv_count + j)
shutdown_after_all j k e bound open_ unset early =
    rw (shutdown_received k e bound open_) (elim (limit_set k e unset early) [
      | inl (last, shut) ↦ rw (receives-closed j _ shut) (ground arith)
      | inr (short, state) ↦ rw state (
          receives_limit j k (record e { close_after = some k }) (rw (closed_limit k e) open_) refl
            short)
    ])

-- On an open endpoint a control message of two 64-bit numbers that comes too late (more than k
-- receives have ended, or a limit has been set before) or has another opcode than 1 raises
-- UCXError, and changes nothing.
pub handle_ctrl_msg_refused :
    (opcode k : ℕ) (e : Endpoint)
    → IsU64 opcode
    → IsU64 k
    → closed e ≡ false
    → (opcode ≡ 1 → ((e.close_after ≡ none → k < e.finished_recv_count)))
    → handle_ctrl_msg (packed (opcode ∷ k ∷ [])) (ok tt) e ≡ (err Exn.ucx_error, e)
unfolding handle_ctrl_msg close_after_n_recv
handle_ctrl_msg_refused opcode k e b c open_ late = ground (arith, deserialize-packed opcode k b c)
