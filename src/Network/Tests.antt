-- ===== src/Network/Tests.antt =====
-- Two workers, and the theorems about the network at concrete inputs.
use ucx_py.Prelude.{◌+◌, ◌≡◌, refl, true, false, arith, ◌==◌, if◌then◌else◌}
use ucx_py.Exceptions.{is_ok}
use ucx_py.Network.{
  Mesh, start, Event, dial, connected, accepted, step, can, Reach, here, then_, sleeps,
}
use ucx_py.Network.Meeting.{step-can}
use ucx_py.Network.Full.{sleeps_done}

-- Worker 0 calls worker 1.
abbrev called : Mesh
called = record start { dialing = λ x. if x == 0 then true else false }

abbrev there : Mesh
there = record {
  next = λ x. if x == 0 then 2 else x + 1;
  dialing = λ x. if x == 0 then false else (if x == 0 then true else false);
  has = λ x y. if x == 0 then (if y == 1 then true else false) else false;
  under_way = λ x y. if x == 0 then (if y == 1 then 1 else 0) else 0;
}

abbrev met : Mesh
met = record there {
  has = λ x y. if x == 1 then (if y == 0 then true else there.has x y) else there.has x y;
  under_way =
      λ x y. if x == 0 then (if y == 1 then 0 else there.under_way x y) else there.under_way x y;
}

called-Reach : Reach 2 called
unfolding start step can
called-Reach = then_ here (dial 0) refl refl

met-Reach : Reach 2 met
unfolding start step can
met-Reach = then_ (then_ called-Reach (connected 0) refl refl) (accepted 1 0) refl refl

met_done : (ev : Event) → can 2 ev met ≡ false
unfolding can
met_done (dial r) = ground arith
met_done (connected r) = ground arith
met_done (accepted k r) = ground arith

met_awake : sleeps 2 1 met ≡ false
unfolding sleeps
met_awake = refl

called_can : can 2 (connected 0) called ≡ true
unfolding can start
called_can = refl

step-can_example : is_ok (step (connected 0) called) ≡ true
step-can_example = step-can 2 (connected 0) called-Reach called_can

sleeps_done_example : (met.has 1 0 ≡ true) × (sleeps 2 1 met ≡ false)
sleeps_done_example =
    sleeps_done 2 met-Reach met_done 1 0 (omega arith) (omega arith) (λ e. omega arith)
