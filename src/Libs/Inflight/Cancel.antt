-- ===== src/Libs/Inflight/Cancel.antt =====
-- What is scheduled is cancelled, once.
use ucx_py.Prelude.{
  Unique-keep, member-update, member-keep, Unique-add, length-append, ◌||◌, ◌&&◌, map, Dict, ℕ, ◌+◌,
  ◌≡◌, refl, ap, Bool, false, List, [], ◌∷◌, ◌++◌, ◌==◌, if◌then◌else◌, length, update, All, arith,
  keep, Unique, member, keep-agree, Unique-update,
}
use mathlib.Core.Path.{subst, sym}
use mathlib.Core.List.{map-append}
use ucx_py.Libs.ActiveMessage.{del, Delivery, Tables, queue, cancel_receive, cancel_am_recv_single}
use ucx_py.Libs.Inflight.{
  settle, Worker, schedule, cancel_each, cancel_am_each, cancel_am_recv, cancel_inflight_messages,
}

settle-other :
    (answers : ℕ → Bool) (r : ℕ) (rs : List ℕ) (is_open : ℕ → Bool)
    → member r rs ≡ false
    → All (λ x. settle answers r is_open x ≡ is_open x) rs
settle-other answers r [] is_open h = tt
settle-other answers r (x ∷ rs) is_open h =
    (ground arith, settle-other answers r rs is_open (ground arith))

-- Each request that is open is cancelled, once.
cancel_each-keep :
    (answers : ℕ → Bool) (rs : List ℕ) (is_open : ℕ → Bool)
    → Unique rs
    → (cancel_each answers rs is_open).0 ≡ keep is_open rs
unfolding cancel_each
cancel_each-keep answers [] is_open u = refl
cancel_each-keep answers (r ∷ rs) is_open u = ground (
  arith,
  cancel_each-keep answers rs (settle answers r is_open) u.1,
  cancel_each-keep answers rs is_open u.1,
  keep-agree (settle answers r is_open) is_open rs (settle-other answers r rs is_open u.0),
)

-- The receives that wait on these endpoints, in order.
abbrev pub waiting : List ℕ → Dict (List ℕ) → List ℕ
waiting [] d = []
waiting (ep ∷ eps) d = queue ep d ++ waiting eps d

queue-del : (ep k : ℕ) (d : Dict (List ℕ)) → (k == ep) ≡ false → queue ep (del k d) ≡ queue ep d
unfolding del
queue-del ep k [] h = refl
queue-del ep k ((j, v) ∷ d) h = ground (arith, queue-del ep k d h)

waiting-del :
    (k : ℕ) (eps : List ℕ) (d : Dict (List ℕ))
    → member k eps ≡ false
    → waiting eps (del k d) ≡ waiting eps d
waiting-del k [] d h = refl
waiting-del k (ep ∷ eps) d h = ground (arith, queue-del ep k d, waiting-del k eps d)

cancel_am_each-waiting :
    (eps : List ℕ) (t : Tables)
    → Unique eps
    → ((cancel_am_each eps t).0 ≡ map cancel_receive (waiting eps t.wait))
      × ((cancel_am_each eps t).1 ≡ length (waiting eps t.wait))
unfolding cancel_am_each cancel_am_recv_single
cancel_am_each-waiting [] t u = (refl, refl)
cancel_am_each-waiting (ep ∷ eps) t u =
    let h = cancel_am_each-waiting eps (cancel_am_recv_single ep t).2 u.1 in
    (
      rw (h.0, waiting-del ep eps t.wait u.0, map-append),
      rw (h.1, waiting-del ep eps t.wait u.0, length-append),
    )

-- The endpoints whose receives are cancelled.
abbrev pub cancels : Worker → List ℕ
cancels w = if w.am_enabled then w.to_cancel_am else []

cancel_am_recv-waiting :
    (w : Worker)
    → Unique w.to_cancel_am
    → let (ds, n, w') = cancel_am_recv w in
      (ds ≡ map cancel_receive (waiting (cancels w) w.tables.wait))
      × (n ≡ length (waiting (cancels w) w.tables.wait))
      × (w'.to_cancel_tag ≡ w.to_cancel_tag)
      × (cancel_am_recv w' ≡ ([], 0, w'))
unfolding cancel_am_recv cancel_am_each
cancel_am_recv-waiting w u =
    let h = cancel_am_each-waiting w.to_cancel_am w.tables u in ground (arith, h.0, h.1)

-- Nothing scheduled: nothing to cancel.
abbrev pub Rest : (ℕ → Bool) → Worker → Type 0
Rest answers w =
    cancel_inflight_messages answers w ≡ (record { canceled = []; deliveries = [] }, 0, w)

cancel_again :
    (answers : ℕ → Bool) (w : Worker)
    → w.to_cancel_tag ≡ []
    → cancel_am_recv w ≡ ([], 0, w)
    → Rest answers w
unfolding cancel_inflight_messages cancel_each
cancel_again answers w h e =
    let same : w ≡ record w { to_cancel_tag = [] } = ap (λ t. record w { to_cancel_tag = t }) h in
    subst (Rest answers) (sym same) (
      ap
        (λ (r : List Delivery × ℕ × Worker).
          (record { canceled = []; deliveries = r.0 }, 0 + r.1, r.2))
        (subst (λ v. cancel_am_recv v ≡ ([], 0, v)) same e))

-- After the error callback of an endpoint has scheduled its requests and its handle, on sets
-- without duplicates, `cancel_inflight_messages` calls `ucp_request_cancel` once on every request
-- that is scheduled, now or before, and open, and on no other; where the worker supports active
-- messages it answers the waiting receives of every scheduled endpoint, in order, with UCXCanceled;
-- it returns how many requests were scheduled and how many receives waited; and a second call
-- cancels nothing, returns 0 and changes nothing.
pub cancel_inflight_messages-schedule :
    (answers : ℕ → Bool) (inflight_msgs : List ℕ) (ep : ℕ) (w : Worker)
    → Unique w.to_cancel_tag
    → Unique w.to_cancel_am
    → let eps = cancels (schedule inflight_msgs ep w) in
      let (log, n, w') = cancel_inflight_messages answers (schedule inflight_msgs ep w) in
      ((r : ℕ)
        → member r log.canceled
          ≡ (w.is_open r && (member r w.to_cancel_tag || member r inflight_msgs)))
      × Unique log.canceled
      × (log.deliveries ≡ map cancel_receive (waiting eps w.tables.wait))
      × (n ≡ length (update inflight_msgs w.to_cancel_tag) + length (waiting eps w.tables.wait))
      × Rest answers w'
unfolding schedule cancel_inflight_messages cancel_am_recv
cancel_inflight_messages-schedule answers inflight_msgs ep w ut ua =
    let u = Unique-update inflight_msgs w.to_cancel_tag ut in
    let each = cancel_each-keep answers (update inflight_msgs w.to_cancel_tag) w.is_open u in
    let am =
      cancel_am_recv-waiting
        (record (schedule inflight_msgs ep w) {
          to_cancel_tag = [];
          is_open = (cancel_each answers (update inflight_msgs w.to_cancel_tag) w.is_open).1;
        })
        (ground (arith, ua, Unique-add ep w.to_cancel_am ua)) in
    (
      λ r. rw (each, member-keep, member-update),
      subst Unique (cc each) (Unique-keep w.is_open _ u),
      am.0,
      ap (λ n. length (update inflight_msgs w.to_cancel_tag) + n) am.1,
      cancel_again answers _ am.2 am.3,
    )
