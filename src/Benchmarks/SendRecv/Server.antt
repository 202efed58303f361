-- ===== src/Benchmarks/SendRecv/Server.antt =====
-- When the loops of the server of benchmarks/send-recv-core.py end.
use ucx_py.Prelude.{
  ℕ, suc, ◌+◌, ◌<◌, ◌≤◌, ◌≡◌, refl, Bool, true, false, Option, none, some, List, [], ◌∷◌, ltb,
  arith,
}
use ucx_py.Prelude.Int.{ltz-sub_nat, inc-sub_nat, dec-sub_nat, sub_nat}
use ucx_py.Exceptions.{Exn, Result, ok, err}
use ucx_py.Libs.Transfer.{send}
use ucx_py.Libs.Transfer.Answers.{Trace, transfer}
use ucx_py.Benchmarks.SendRecv.{
  Counters, Event, started, tag_received, am_received, sent, new, server_step, server_run, goes_on,
  goes_on_delayed, op_started, op_completed, handler_calls, non_blocking_handler, answered_tag,
}

-- How many receives are started, from n on.
abbrev pub starts : List Event → ℕ → ℕ
starts [] n = n
starts (started ∷ evs) n = starts evs (suc n)
starts (ev ∷ evs) n = starts evs n

Balanced : ℕ → Counters → Type 0
Balanced n c = c.outstanding ≡ sub_nat n c.finished

handler-Balanced :
    (n : ℕ) (x : Option Exn) (c : Counters) → Balanced n c → Balanced n (non_blocking_handler x c)
unfolding Balanced non_blocking_handler op_completed
handler-Balanced n none c b = rw (b, dec-sub_nat) refl
handler-Balanced n (some x) c b = b

calls-Balanced :
    (n : ℕ) (xs : List (Option Exn)) (c : Counters) → Balanced n c → Balanced n (handler_calls xs c)
unfolding handler_calls
calls-Balanced n [] c b = b
calls-Balanced n (x ∷ xs) c b = calls-Balanced n xs _ (handler-Balanced n x c b)

completed-Balanced : (n : ℕ) (c : Counters) → Balanced n c → Balanced n (op_completed c)
unfolding Balanced op_completed
completed-Balanced n c b = rw (b, dec-sub_nat) refl

started-Balanced : (n : ℕ) (c : Counters) → Balanced n c → Balanced (suc n) (op_started c)
unfolding Balanced op_started
started-Balanced n c b = rw (b, inc-sub_nat) refl

answered-Balanced :
    (n : ℕ) (t : Trace) (r : Result Bool) (c : Counters)
    → t.outcome ≡ r
    → Balanced n c
    → Balanced n (answered_tag t c)
unfolding answered_tag
answered-Balanced n t (err x) c e b = rw (answered_tag, e) b
answered-Balanced n t (ok false) c e b = rw (answered_tag, e) (completed-Balanced n c b)
answered-Balanced n t (ok true) c e b = rw (answered_tag, e) b

run-Balanced :
    (evs : List Event) (n : ℕ) (c : Counters)
    → Balanced n c
    → Balanced (starts evs n) (server_run evs c)
unfolding server_run server_step
run-Balanced [] n c b = b
run-Balanced (started ∷ evs) n c b = run-Balanced evs (suc n) _ (started-Balanced n c b)
run-Balanced (tag_received none o ∷ evs) n c b =
    let t = transfer send o.nbytes o.counter o.course in
    run-Balanced evs n (answered_tag t (handler_calls t.before c))
      (answered-Balanced n t t.outcome _ refl (calls-Balanced n t.before c b))
run-Balanced (tag_received (some x) o ∷ evs) n c b = run-Balanced evs n _ b
run-Balanced (am_received none o ∷ evs) n c b =
    let xs = (transfer send o.nbytes o.counter o.course).before in
    run-Balanced evs n (handler_calls xs c) (calls-Balanced n xs c b)
run-Balanced (am_received (some x) o ∷ evs) n c b = run-Balanced evs n _ b
run-Balanced (sent x ∷ evs) n c b = run-Balanced evs n _ (handler-Balanced n x c b)

-- After any course of the server in which n + 1 receives were started, the loop under
-- `--delay-progress` goes on exactly while fewer than n + 1 operations are finished, whatever the
-- limit, and as long as not more are finished the loop without it goes on as well and no longer.
pub goes_on-agree :
    (evs : List Event) (n max : ℕ)
    → starts evs 0 ≡ n + 1
    → let c = server_run evs new in
      (goes_on_delayed n max c ≡ ltb c.finished (n + 1))
      × (c.finished ≤ n + 1 → goes_on n c ≡ goes_on_delayed n max c)
unfolding goes_on goes_on_delayed Balanced
goes_on-agree evs n max h =
    let b = run-Balanced evs 0 new refl in
    let d : goes_on_delayed n max (server_run evs new) ≡ ltb (server_run evs new).finished (n + 1) =
      rw (goes_on_delayed, b, h, ltz-sub_nat) (ground arith) in
    (d, λ le. rw d (ground (arith, le)))

-- Active messages start no count: where the server's limit is positive and, with the limit, fewer
-- operations than n + 1 are finished, the loop under `--delay-progress` has ended though the other
-- one goes on.
pub goes_on_delayed-am :
    (evs : List Event) (n max : ℕ)
    → starts evs 0 ≡ 0
    → 0 < max
    → (server_run evs new).finished + max < n + 1
    → (goes_on_delayed n max (server_run evs new) ≡ false) × (goes_on n (server_run evs new) ≡ true)
unfolding goes_on goes_on_delayed Balanced
goes_on_delayed-am evs n max h pos_ few =
    let b = run-Balanced evs 0 new refl in
    (rw (goes_on_delayed, b, h, ltz-sub_nat) (ground arith), ground arith)
