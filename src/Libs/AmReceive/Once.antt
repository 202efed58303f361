-- ===== src/Libs/AmReceive/Once.antt =====
-- Each message is delivered or kept once, whichever way it comes.
use ucx_py.Prelude.{
  inr, inl, List-cases, Dict, ap, sym, insert, ◌∙◌, ℕ, ◌+◌, ◌<◌, ◌^◌, ◌≡◌, Bool, true, false, List,
  [], ◌∷◌, ◌++◌, arith, if◌then◌else◌, ◌&&◌, lookup-insert, List-cases, Dict, Option, none, some,
  inl, inr, refl,
}
use ucx_py.Exceptions.{Exn}
use ucx_py.Libs.Ucs.{UcsStatus}
use ucx_py.Libs.Request.{Request, fresh, wrap, closed, close, inline, failed, request}
use ucx_py.Libs.Transfer.{send, verdict}
use ucx_py.Libs.Transfer.Answers.{Course, at_once, refused, early, late}
use ucx_py.Libs.ActiveMessage.{
  nothing, message, queue-insert, pushed, queue, message, nothing, Message, buffer, failure,
  Delivery, Tables, pool_entry, push_result,
}
use ucx_py.Libs.AmReceive.{
  none, Option, push_both, some, host, cuda, Header, unsupported, Incoming, push_completed,
  am_recv_callback, am_recv_completed_callback, arrived_rndv,
}

-- The deliveries of a message up to the return of `_am_recv_callback` and later, the tables, and the
-- request.
pub record Receipt : Type 0 where
  pub now : List Delivery
  pub later : List Delivery
  pub tables : Tables
  pub memory : Request

-- Does `_am_recv_callback` call `ucp_am_recv_data_nbx`?
abbrev pub reaches : Incoming → Bool
reaches m =
    m.asserted
    && m.allocates
    && m.is_rndv
    && (elim m.header [ unsupported ↦ false | host ↦ true | cuda ↦ true ])

-- A message over its course; `between` is what happens to the tables before a late completion.
unfoldable pub receive_data : Incoming → ℕ → Course → (Tables → Tables) → Tables → Receipt
receive_data m counter at_once between t =
    let ((ds, t'), (c, r)) = am_recv_callback m inline counter fresh t in
    record { now = ds; later = []; tables = t'; memory = r }
receive_data m counter refused between t =
    let ((ds, t'), (c, r)) = am_recv_callback m failed counter fresh t in
    record { now = ds; later = []; tables = t'; memory = r }
receive_data m counter (early status length) between t =
    let ((ds, t'), (c, r)) = am_recv_completed_callback m status counter fresh t in
    let ((es, t''), (c', r')) = am_recv_callback m request c r t' in
    record { now = ds ++ es; later = []; tables = t''; memory = r' }
receive_data m counter (late status length) between t =
    let ((ds, t'), (c, r)) = am_recv_callback m request counter fresh t in
    let ((es, t''), (c', r')) = am_recv_completed_callback m status c r (between t') in
    record { now = ds; later = es; tables = t''; memory = r' }

-- A message that needs no UCX call has no course.
unfoldable pub receive : Incoming → ℕ → Course → (Tables → Tables) → Tables → Receipt
receive m counter course between t =
    receive_data m counter (if reaches m then course else at_once) between t

-- A message given to the first of the receives that wait on the endpoint, or, where there is none,
-- put behind those of the pool: the call of a receive, and the tables.
unfoldable pub hand_over :
    ℕ → Delivery → Message → List ℕ → List Message → Tables → List Delivery × Tables
hand_over ep d kept [] stored t = ([], record t { pool = insert ep (stored ++ kept ∷ []) t.pool })
hand_over ep d kept (r ∷ rest) stored t =
    (record d { receive = r } ∷ [], record t { wait = insert ep rest t.wait })

-- The endpoint has its entry in the pool.
abbrev pub entered : Incoming → Tables → Tables
entered m t = record t { pool = pool_entry m.ep t.pool }

-- The outcome of a message: a buffer, an exception, or, where the buffer is there and the completion
-- failed, both.
unfoldable pub settle : Incoming → Bool → Option Exn → Tables → List Delivery × Tables
settle m with_buffer exception t =
    let d : Delivery = record {
      receive = 0;
      recv_obj = if with_buffer then message (buffer m.buf) else nothing;
      exception = exception;
    } in
    let kept : Message = elim exception [ none ↦ buffer m.buf | some x ↦ failure x ] in
    hand_over m.ep d kept (queue m.ep t.wait) (queue m.ep t.pool) (entered m t)

abbrev pub settled_now : Incoming → Bool → Option Exn → Tables → Receipt
settled_now m with_buffer exception t =
    let (ds, t') = settle m with_buffer exception (entered m t) in
    record { now = ds; later = []; tables = t'; memory = fresh }

abbrev pub lost : Tables → Receipt
lost t = record { now = []; later = []; tables = t; memory = fresh }

-- Without UCX: an eager message is handed over, one of unsupported memory is a failure, one for which
-- no buffer is made is lost.
abbrev pub due_without : Incoming → Tables → Receipt
due_without m t =
    if m.asserted
    then (if m.allocates
        then (if m.is_rndv
            then settled_now m false (some Exn.ucx_error) t
            else settled_now m true none t)
        else lost (entered m t))
    else lost t

-- What is due.
unfoldable pub due : Incoming → Course → (Tables → Tables) → Tables → Receipt
due m course between t =
    if reaches m
    then (elim course [
      | at_once ↦ settled_now m true none t
      | refused ↦ settled_now m false (some Exn.ucx_error) t
      | early status length ↦ settled_now m true none t
      | late status length ↦
          (let (ds, t') = settle m true (verdict send status 0 0) (between (entered m t)) in
            record { now = []; later = ds; tables = t'; memory = fresh })
    ])
    else due_without m t

queue-entered : (ep : ℕ) (d : Dict (List Message)) → queue ep (pool_entry ep d) ≡ queue ep d
queue-entered ep d = ground (arith, lookup-insert ep ep ([]) d)

push_result-settle :
    (m : Incoming) (t : Tables) → push_result m.ep (buffer m.buf) t ≡ settle m true none t
unfolding push_result settle hand_over
push_result-settle m t = elim (List-cases (queue m.ep t.wait)) [
  | inl e ↦ rw (e, push_result, hand_over, queue-entered m.ep t.pool) refl
  | inr (r, rest, e) ↦ rw (e, push_result, hand_over) refl
]

push_failure-settle :
    (m : Incoming) (x : Exn) (t : Tables)
    → push_result m.ep (failure x) t ≡ settle m false (some x) t
unfolding push_result settle hand_over
push_failure-settle m x t = elim (List-cases (queue m.ep t.wait)) [
  | inl e ↦ rw (e, push_result, hand_over, queue-entered m.ep t.pool) refl
  | inr (r, rest, e) ↦ rw (e, push_result, hand_over) refl
]

push_completed-settle :
    (m : Incoming) (exception : Option Exn) (t : Tables)
    → push_completed m.ep m.buf exception t ≡ settle m true exception t
unfolding push_completed push_both push_result settle hand_over
push_completed-settle m none t = push_result-settle m t
push_completed-settle m (some x) t = elim (List-cases (queue m.ep t.wait)) [
  | inl e ↦ rw (e, push_result, hand_over, queue-entered m.ep t.pool) refl
  | inr (r, rest, e) ↦ rw (e, push_result, hand_over) refl
]

-- Before the counter of requests comes round, an active message is given to the first of the
-- receives that wait on its endpoint, which leaves the queue, or, where none waits, put behind
-- those of the pool, never both; and its request goes back to UCX. This happens when an eager
-- message comes, and when UCX completes or refuses one by rendezvous: as a buffer, as UCXError
-- where UCX refuses it or the type of memory is not supported, or, where a late completion has
-- another status, as the buffer with the exception, of which the pool keeps the exception. If an
-- assertion fails or the allocator makes no buffer, the message is lost.
pub receive-due :
    (m : Incoming) (counter : ℕ) (course : Course) (between : Tables → Tables) (t : Tables)
    → counter + 1 < 2 ^ 32
    → receive m counter course between t ≡ due m course between t
unfolding receive receive_data due am_recv_callback am_recv_completed_callback arrived_rndv wrap
    closed close
receive-due m counter at_once between t bound =
    let same = push_result-settle m (entered m t) in
    let failed = push_failure-settle m Exn.ucx_error (entered m t) in ground arith
receive-due m counter refused between t bound =
    let same = push_result-settle m (entered m t) in
    let failed = push_failure-settle m Exn.ucx_error (entered m t) in ground arith
receive-due m counter (early status length) between t bound =
    let same = push_result-settle m (entered m t) in
    let failed = push_failure-settle m Exn.ucx_error (entered m t) in ground arith
receive-due m counter (late status length) between t bound =
    let same = push_result-settle m (entered m t) in
    let failed = push_failure-settle m Exn.ucx_error (entered m t) in
    let completed = push_completed-settle m (verdict send status 0 0) (between (entered m t)) in
    ground arith

abbrev pub eager : ℕ → Header → ℕ → Incoming
eager ep h b = record {
  asserted = true;
  ep = ep;
  is_rndv = false;
  header = h;
  allocates = true;
  buf = b;
}

push_waiting :
    (ep r : ℕ) (rest : List ℕ) (m : Message) (t : Tables)
    → queue ep t.wait ≡ r ∷ rest
    → push_result ep m t
      ≡ (pushed r m ∷ [], record { pool = pool_entry ep t.pool; wait = insert ep rest t.wait })
unfolding push_result
push_waiting ep r rest m t h = rw (push_result, h)

eager-waiting :
    (m : Incoming) (h : Header) (b counter r : ℕ) (rest : List ℕ) (t : Tables)
    → counter + 1 < 2 ^ 32
    → queue m.ep t.wait ≡ r ∷ rest
    → receive (eager m.ep h b) counter at_once (λ t'. t') t ≡ record {
      now = pushed r (buffer b) ∷ [];
      later = [];
      tables = record {
        pool = pool_entry m.ep (pool_entry m.ep t.pool);
        wait = insert m.ep rest t.wait;
      };
      memory = fresh;
    }
unfolding due
eager-waiting m h b counter r rest t bound w =
    receive-due (eager m.ep h b) counter at_once (λ t'. t') t bound
    ∙ ap
        (λ (p : List Delivery × Tables). record {
          now = p.0;
          later = [];
          tables = p.1;
          memory = fresh;
        })
        (sym (push_result-settle (eager m.ep h b) (entered (eager m.ep h b) t))
          ∙ push_waiting m.ep r rest (buffer b) (entered (eager m.ep h b) t) w)

due-late :
    (m : Incoming) (length : ℕ) (between : Tables → Tables) (t : Tables)
    → reaches m ≡ true
    → due m (late UcsStatus.ucs_ok length) between t ≡ (
        let (ds, t') = push_result m.ep (buffer m.buf) (between (entered m t)) in
        record { now = []; later = ds; tables = t'; memory = fresh })
unfolding due push_completed verdict
due-late m length between t on = rw (due, on, push_result-settle m (between (entered m t))) refl

-- Where two receives wait on an endpoint, an eager message that comes while one by rendezvous is in
-- progress is given to the first of them, and the message by rendezvous, once complete, to the second.
pub eager_overtakes :
    (m : Incoming) (h : Header) (b counter r₁ r₂ : ℕ) (rest : List ℕ) (length : ℕ) (t : Tables)
    → counter + 1 < 2 ^ 32
    → reaches m ≡ true
    → queue m.ep t.wait ≡ r₁ ∷ r₂ ∷ rest
    → let second : Tables → Receipt = receive (eager m.ep h b) counter at_once (λ t'. t') in
      let first = receive m counter (late UcsStatus.ucs_ok length) (λ t'. (second t').tables) t in
      ((second (entered m t)).now ≡ pushed r₁ (buffer b) ∷ [])
      × (first.now ≡ [])
      × (first.later ≡ pushed r₂ (buffer m.buf) ∷ [])
      × (queue m.ep first.tables.wait ≡ rest)
eager_overtakes m h b counter r₁ r₂ rest length t bound on w =
    let overtake : Tables → Tables =
      λ t'. (receive (eager m.ep h b) counter at_once (λ t''. t'') t').tables in
    let second = eager-waiting m h b counter r₁ (r₂ ∷ rest) (entered m t) bound w in
    let left : queue m.ep (overtake (entered m t)).wait ≡ r₂ ∷ rest =
      ap (λ r. queue m.ep r.tables.wait) second ∙ queue-insert m.ep (r₂ ∷ rest) t.wait in
    let first =
      receive-due m counter (late UcsStatus.ucs_ok length) overtake t bound
      ∙ due-late m length overtake t on
      ∙ ap
          (λ (r : List Delivery × Tables). record {
            now = [];
            later = r.0;
            tables = r.1;
            memory = fresh;
          })
          (push_waiting m.ep r₂ rest (buffer m.buf) (overtake (entered m t)) left) in
    (
      ap (λ r. r.now) second,
      ap (λ r. r.now) first,
      ap (λ r. r.later) first,
      ap (λ r. queue m.ep r.tables.wait) first
          ∙ queue-insert m.ep rest (overtake (entered m t)).wait,
    )
