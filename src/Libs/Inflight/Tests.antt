-- ===== src/Libs/Inflight/Tests.antt =====
-- A worker with two endpoints, 1 and 2: requests 10 and 11 of endpoint 1 are in flight, 11 is closed,
-- and the receives 20 and 21 wait on endpoint 1.
use ucx_py.Prelude.{
  map, Unique, ◌||◌, ◌&&◌, ◌≡◌, member, ℕ, true, false, [], ◌∷◌, ◌==◌, if◌then◌else◌, refl, ◌≡◌,
  member, update, Unique, map, length, ◌+◌, ◌&&◌, ◌||◌,
}
use ucx_py.Libs.ActiveMessage.{cancel_receive, cancel_am_recv_single}
use ucx_py.Libs.Inflight.{
  length, cancel_am_each, cancel_am_recv, cancel_each, Worker, schedule, cancel_inflight_messages,
  cancel_each, cancel_am_recv, cancel_am_each,
}
use ucx_py.Libs.Inflight.Cancel.{cancels, Rest, waiting, cancel_inflight_messages-schedule}

abbrev two : Worker
two = record {
  am_enabled = true;
  to_cancel_tag = 12 ∷ [];
  to_cancel_am = 2 ∷ [];
  tables = record { pool = []; wait = (1, 20 ∷ 21 ∷ []) ∷ (2, 22 ∷ []) ∷ [] };
  is_open = λ r. if r == 11 then false else true;
}

-- Requests 12 and 10 and the receives 22, 20 and 21: six, as 11 is counted too.
scheduled_tag :
    (cancel_inflight_messages (λ _. true) (schedule (10 ∷ 11 ∷ []) 1 two)).0.canceled ≡ 12 ∷ 10 ∷ []
unfolding schedule cancel_inflight_messages cancel_each
scheduled_tag = refl

scheduled_count : (cancel_inflight_messages (λ _. true) (schedule (10 ∷ 11 ∷ []) 1 two)).1 ≡ 6
unfolding schedule cancel_inflight_messages cancel_each cancel_am_recv cancel_am_each
    cancel_am_recv_single
scheduled_count = refl

cancel_inflight_messages-schedule_example :
    let eps = cancels (schedule (10 ∷ 11 ∷ []) 1 two) in
    let (log, n, w') = cancel_inflight_messages (λ _. true) (schedule (10 ∷ 11 ∷ []) 1 two) in
    ((r : ℕ)
      → member r log.canceled
        ≡ (two.is_open r && (member r two.to_cancel_tag || member r (10 ∷ 11 ∷ []))))
    × Unique log.canceled
    × (log.deliveries ≡ map cancel_receive (waiting eps two.tables.wait))
    × (n ≡ length (update (10 ∷ 11 ∷ []) two.to_cancel_tag) + length (waiting eps two.tables.wait))
    × Rest (λ _. true) w'
unfolding schedule
cancel_inflight_messages-schedule_example =
    cancel_inflight_messages-schedule (λ _. true) (10 ∷ 11 ∷ []) 1 two (refl, tt) (refl, tt)
