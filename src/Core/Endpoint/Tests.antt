-- ===== src/Core/Endpoint/Tests.antt =====
-- Endpoints at work, and the theorems about them at concrete inputs.
use ucx_py.Prelude.{
  ℕ, ◌≡◌, ◌≢◌, refl, ap, true, false, none, some, List, [], ◌∷◌, arith, ◌⊎◌, inl, ◌<◌,
}
use ucx_py.Exceptions.{Exn, ok, err, is_ucx_error}
use ucx_py.Hash.{Digest}
use ucx_py.Struct.{packed}
use ucx_py.Libs.Ucs.{UcsStatus}
use ucx_py.Libs.UcxEndpoint.{UcxEndpoint}
use ucx_py.Libs.UcxEndpoint
use ucx_py.Core.Endpoint.{Endpoint, Tags, init, closed, detach, recv_start}
use ucx_py.Core.Endpoint.Close.{sending, sleeping, close_start, close_sent, close_slept}
use ucx_py.Core.Endpoint.Ctrl.{handle_ctrl_msg}
use ucx_py.Core.Endpoint.Events.{recv, received, endpoint_error, Reach, here, next, apply, Inv}
use ucx_py.Core.Endpoint.Invariant.{Reach-limit}
use ucx_py.Core.Endpoint.Awaits.{usable, close-awaits}
use ucx_py.Core.Endpoint.Counts.{sends_begun, recvs_begun, recvs_ended, Reach-counts}
use ucx_py.Core.Endpoint.Shutdown.{receives, shutdown_after_all}
use ucx_py.Core.Endpoint.Closing.{close_start_sends, told_once}

-- A digest of forty zeros.
abbrev zeros : List ℕ
zeros = 0 ∷ 0 ∷ 0 ∷ 0 ∷ 0 ∷ 0 ∷ 0 ∷ 0 ∷ 0 ∷ 0 ∷ 0 ∷ 0 ∷ 0 ∷ 0 ∷ 0 ∷ 7 ∷ 0 ∷ 0 ∷ []

abbrev pub sha1 : Digest
sha1 = record { hexdigest = λ args. zeros; hexadecimal = λ args. omega arith }

abbrev pub backend : UcxEndpoint
backend = record {
  handle_as_int = 4096;
  alive = true;
  endpoint_error_handling = true;
  status = UcsStatus.ucs_ok;
  close_callback = record { cb_func = some 1; called = [] };
  ucp_ep_close_nb = λ mode. UcsStatus.ucs_ok;
}

abbrev pub tags : Tags
tags = record { msg_send = 11; msg_recv = 12; ctrl_send = 13; ctrl_recv = 14 }

-- An endpoint that has sent three messages and finished two receives.
abbrev busy : Endpoint
busy = record {
  ep = some backend;
  ctx = some 0;
  send_count = 3;
  recv_count = 2;
  finished_recv_count = 2;
  shutting_down_peer = false;
  close_after = none;
  tags = some tags;
}

busy-open : closed busy ≡ false
unfolding closed UcxEndpoint.is_alive
busy-open = refl

abbrev gone : Endpoint
gone = detach busy

-- A receive begins and ends.
one_receive : Reach sha1 (init backend 0 (some tags)) (
    apply sha1
      (received (ok tt))
      (apply sha1 (recv (λ t. true) (ok 8) none false) (init backend 0 (some tags))))
unfolding apply init recv_start
one_receive =
    next (next here (recv (λ t. true) (ok 8) none false) tt) (received (ok tt)) (omega arith)

abbrev after_one : Endpoint
after_one =
    apply sha1 (received (ok tt))
      (apply sha1 (recv (λ t. true) (ok 8) none false) (init backend 0 (some tags)))

Reach-counts_example :
    (after_one.send_count ≡ 0) × (after_one.recv_count ≡ 1) × (after_one.finished_recv_count ≡ 1)
unfolding init sends_begun recvs_begun recvs_ended recv_start apply one_receive
Reach-counts_example = Reach-counts sha1 one_receive

-- The control message of a peer that has sent three messages, and one more receive.
abbrev limited : Endpoint
limited = record busy { close_after = some 3; recv_count = 3 }

limited-Inv : Inv limited
limited-Inv = record { counted = omega arith; on_time = inl (omega arith) }

last_receive : Reach sha1 limited (apply sha1 (received (ok tt)) limited)
last_receive = next here (received (ok tt)) (omega arith)

Reach-limit_example :
    let f = apply sha1 (received (ok tt)) limited in
    (f.close_after ≡ some 3) × ((f.finished_recv_count < 3) ⊎ (closed f ≡ true))
Reach-limit_example = Reach-limit sha1 3 last_receive limited-Inv refl

shutdown_after_all_example :
    closed (receives 1 (handle_ctrl_msg (packed (1 ∷ 4 ∷ [])) (ok tt) busy).1) ≡ false
shutdown_after_all_example = shutdown_after_all 1 4 busy (omega arith) busy-open refl (omega arith)

-- While `close` sleeps, UCX reports an error of the endpoint.
abbrev told : Endpoint
told = (close_start busy).1

abbrev failed : Endpoint
failed = apply sha1 (endpoint_error UcsStatus.err_connection_reset) told

failing : Reach sha1 told failed
failing = next here (endpoint_error UcsStatus.err_connection_reset) refl

close-awaits_example :
    ((close_start busy).0 ≡ ok (sending (packed (1 ∷ 3 ∷ [])) 13))
    × (((closed told ≡ true) × ((close_sent (err Exn.ucx_error) told).1 ≡ told))
        ⊎ ((close_sent (err Exn.ucx_error) told ≡ (ok (sleeping (ok tt)), told))
            × (((usable failed ≡ true) × (close_slept (ok tt) failed ≡ (ok tt, detach failed)))
                ⊎ ((usable failed ≡ false)
                    × (close_slept (ok tt) failed ≡ (err Exn.assertion_error, failed))))))
unfolding is_ucx_error
close-awaits_example =
    close-awaits sha1 busy backend 0 tags refl refl refl busy-open (omega arith) refl (refl, refl)
      (err Exn.ucx_error) here failing

abbrev untagged : Endpoint
untagged = record busy { tags = none }

untagged-open : closed untagged ≡ false
unfolding closed UcxEndpoint.is_alive
untagged-open = refl

busy_sends : (close_start busy).0 ≡ ok (sending (packed (1 ∷ 3 ∷ [])) 13)
busy_sends =
    ap (λ s. s.0)
      (close_start_sends busy backend 0 refl refl busy-open tags refl (omega arith) refl)

told_once_example : (close_start (close_start busy).1).0 ≢ ok (sending (packed (1 ∷ 3 ∷ [])) 13)
told_once_example = told_once sha1 busy _ (packed (1 ∷ 3 ∷ [])) _ 13 busy_sends here
