-- ===== src/Benchmarks/SendRecv/Tests.antt =====
-- Two iterations of the client, and a server of one.
use ucx_py.Prelude.{◌≡◌, ◌<◌, ◌+◌, refl, List, [], ◌∷◌, length, none, arith, ◌⊎◌, ltb, ◌≤◌, ◌*◌}
use ucx_py.Prelude.Int.{pos}
use ucx_py.Libs.Ucs.{UcsStatus}
use ucx_py.Libs.Request.{handle_status, wrap, closed, close}
use ucx_py.Libs.Transfer.{callback, verdict, send, tag_recv}
use ucx_py.Libs.Transfer.Answers.{transfer, at_once, early, late}
use ucx_py.Libs.Ucxio.{blocked, returned}
use ucx_py.Benchmarks.SendRecv.{
  transfer, Op, Event, started, tag_received, am_received, sent, State, new, client, flatten,
  server_run, goes_on, goes_on_delayed,
}
use ucx_py.Benchmarks.SendRecv.Client.{client-ends}
use ucx_py.Benchmarks.SendRecv.Balance.{earlies}
use ucx_py.Benchmarks.SendRecv.Server.{goes_on-agree}

abbrev ping : Op
ping = record { kind = send; nbytes = 8; counter = 0; course = at_once }

abbrev pong : Op
pong = record { kind = tag_recv; nbytes = 8; counter = 1; course = late UcsStatus.ucs_ok 8 }

-- The message had come before the receive was posted.
abbrev met : Op
met = record { kind = tag_recv; nbytes = 8; counter = 1; course = early UcsStatus.ucs_ok 8 }

abbrev rounds : List (Op × Op)
rounds = (ping, pong) ∷ (ping, met) ∷ []

client-ends_example :
    let e = earlies (flatten rounds) in
    ((s : State) × (client 1 rounds ≡ returned s)
      × (s.counters.finished ≡ 2 * length rounds)
      × (s.counters.outstanding ≡ pos 0)
      × (length s.pending ≡ e))
    ⊎ ((client 1 rounds ≡ blocked) × (0 < e))
unfolding flatten verdict
client-ends_example =
    client-ends 1 rounds (omega arith)
      ((omega arith, refl), ((omega arith, refl), ((omega arith, refl), ((omega arith, refl), tt))))

abbrev served : List Event
served = started ∷ started ∷ tag_received none ping ∷ tag_received none pong ∷ sent none ∷ []

goes_on-agree_example :
    let c = server_run served new in
    (goes_on_delayed 1 3 c ≡ ltb c.finished (1 + 1))
    × (c.finished ≤ 1 + 1 → goes_on 1 c ≡ goes_on_delayed 1 3 c)
goes_on-agree_example = goes_on-agree served 1 3 refl

abbrev am_served : List Event
am_served = am_received none pong ∷ sent none ∷ []

am_served_once : (server_run am_served new).finished ≡ 1
unfolding server_run transfer handle_status wrap closed close callback verdict
am_served_once = refl
