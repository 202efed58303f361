-- ===== src/Libs/UcxWorker.antt =====
-- UCXWorker of ucp/_libs/ucx_worker.pyx: its finalizer, which drains the messages that nobody received
-- and cancels what is in flight, and the registering of allocators.
pub mod Blocking
pub mod Making
pub mod Polling
mod Tests
use ucx_py.Prelude.{
  map, ℕ, ◌+◌, ◌<◌, ◌^◌, ◌≡◌, refl, ap, Bool, true, false, not, ◌&&◌, List, [], ◌∷◌, ◌++◌, length,
  All, if◌then◌else◌, arith,
}
use ucx_py.Exceptions.{Exn, Result, ok, err}
use ucx_py.Libs.Ucs.{UcsStatus}
use ucx_py.Libs.Transfer.{tag_recv}
use ucx_py.Libs.Transfer.Answers.{
  Course, at_once, refused, early, late, Trace, transfer, answered, transfer-answered,
}
use ucx_py.Libs.Ucxio.{Outcome, returned, raised, blocked}

-- A message that `ucp_tag_probe_nb` finds: its length, the counter of requests as it is then, and how
-- its receiving goes.
pub record Unreceived : Type 0 where
  pub length : ℕ
  pub counter : ℕ
  pub course : Course

-- The wait for `_req_cb`, which sets `_finished` whatever the exception.
abbrev pub wait_for_req : Trace → Outcome (Unit {0})
wait_for_req t = elim t.outcome [
  | err x ↦ raised x
  | ok false ↦ returned tt
  | ok true ↦ elim t.later [ [] ↦ blocked | _ ↦ returned tt ]
]

abbrev pub next_message : Outcome (Unit {0}) → Outcome (Unit {0}) × ℕ → Outcome (Unit {0}) × ℕ
next_message (returned _) (o, n) = (o, n + 1)
next_message (raised x) (o, n) = (raised x, 1)
next_message blocked (o, n) = (blocked, 0)

-- `_drain_worker_tag_recv`, and how many buffers it has freed.
unfoldable pub drain_worker_tag_recv : List Unreceived → Outcome (Unit {0}) × ℕ
drain_worker_tag_recv [] = (returned tt, 0)
drain_worker_tag_recv (m ∷ ms) =
    next_message (wait_for_req (transfer tag_recv m.length m.counter m.course))
      (drain_worker_tag_recv ms)

-- A request in flight, numbered: is it closed?
abbrev pub Inflight : Type 0
Inflight = List (ℕ × Bool)

-- The requests that are cancelled before one that is closed, and is there such a one?
unfoldable pub cancel_open : Inflight → List ℕ × Bool
cancel_open [] = ([], false)
cancel_open ((r, closed) ∷ rs) =
    let (later, failed) = cancel_open rs in if closed then ([], true) else (r ∷ later, failed)

-- What the finalizer has done.
pub record Finalized : Type 0 where
  pub outcome : Outcome (Unit {0})
  pub freed : ℕ
  pub canceled : List ℕ
  pub destroyed : Bool

after_drain : Outcome (Unit {0}) × ℕ → Inflight → Finalized
after_drain (raised x, n) inflight_msgs = record {
  outcome = raised x;
  freed = n;
  canceled = [];
  destroyed = false;
}
after_drain (blocked, n) inflight_msgs = record {
  outcome = blocked;
  freed = n;
  canceled = [];
  destroyed = false;
}
after_drain (returned _, n) inflight_msgs =
    let (rs, failed) = cancel_open inflight_msgs in
    record {
      outcome = if failed then raised Exn.assertion_error else returned tt;
      freed = n;
      canceled = rs;
      destroyed = not failed;
    }

-- `_ucx_worker_handle_finalizer`
unfoldable pub worker_finalizer : Bool → Bool → List Unreceived → Inflight → Finalized
unfolding after_drain
worker_finalizer initialized tag_support ms inflight_msgs =
    if initialized
    then after_drain (if tag_support then drain_worker_tag_recv ms else (returned tt, 0))
        inflight_msgs
    else record {
      outcome = raised Exn.assertion_error;
      freed = 0;
      canceled = [];
      destroyed = false;
    }

-- The messages up to one that UCX refuses to receive, and is there such a one?
abbrev pub is_refused : Course → Bool
is_refused refused = true
is_refused _ = false

abbrev pub any_refused : List Unreceived → Bool
any_refused [] = false
any_refused (m ∷ ms) = if is_refused m.course then true else any_refused ms

abbrev pub up_to_refused : List Unreceived → ℕ
up_to_refused [] = 0
up_to_refused (m ∷ ms) = if is_refused m.course then 1 else up_to_refused ms + 1

abbrev pub Bounded : List Unreceived → Type 0
Bounded ms = All (λ (m : Unreceived). m.counter + 1 < 2 ^ 32) ms

wait_for_req-answered :
    (n : ℕ) (course : Course)
    → wait_for_req (answered tag_recv n course)
      ≡ (if is_refused course then raised Exn.ucx_error else returned tt)
unfolding answered
wait_for_req-answered n at_once = refl
wait_for_req-answered n refused = refl
wait_for_req-answered n (early status length) = refl
wait_for_req-answered n (late status length) = refl

drain_lem :
    (ms : List Unreceived)
    → Bounded ms
    → drain_worker_tag_recv ms
      ≡ ((if any_refused ms then raised Exn.ucx_error else returned tt), up_to_refused ms)
unfolding drain_worker_tag_recv
drain_lem [] b = refl
drain_lem (m ∷ ms) (b, bs) =
    rw
      (
        transfer-answered tag_recv m.length m.counter m.course b,
        wait_for_req-answered m.length m.course,
        drain_lem ms bs,
      )
      (ground arith)

cancel_open_lem :
    (rs : Inflight)
    → All (λ (r : ℕ × Bool). r.1 ≡ false) rs
    → cancel_open rs ≡ (map (λ (r : ℕ × Bool). r.0) rs, false)
unfolding cancel_open
cancel_open_lem [] o = refl
cancel_open_lem ((r, closed) ∷ rs) (o, os) = rw (cancel_open_lem rs os, o)

-- Before the counter of requests comes round, the finalizer of a worker whose context is
-- initialized and whose requests in flight are open ends: if the worker supports tags it receives
-- the messages that nobody received, up to one that UCX refuses, and frees a buffer for each; where
-- none is refused it cancels every request in flight and destroys the worker, otherwise it raises
-- UCXError, cancels nothing and does not destroy the worker.
pub worker_finalizer-ends :
    (tag_support : Bool) (ms : List Unreceived) (inflight_msgs : Inflight)
    → Bounded ms
    → All (λ (r : ℕ × Bool). r.1 ≡ false) inflight_msgs
    → let stops = tag_support && any_refused ms in
      worker_finalizer true tag_support ms inflight_msgs ≡ record {
        outcome = if stops then raised Exn.ucx_error else returned tt;
        freed = if tag_support then up_to_refused ms else 0;
        canceled = if stops then [] else map (λ (r : ℕ × Bool). r.0) inflight_msgs;
        destroyed = not stops;
      }
unfolding worker_finalizer after_drain
worker_finalizer-ends true ms inflight_msgs b o =
    rw (drain_lem ms b) (ground (arith, cancel_open_lem inflight_msgs o))
worker_finalizer-ends false ms inflight_msgs b o = rw (cancel_open_lem inflight_msgs o)
