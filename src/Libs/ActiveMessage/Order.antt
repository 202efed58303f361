-- ===== src/Libs/ActiveMessage/Order.antt =====
-- The completed messages of an endpoint, as `_push_result` is called with them, meet its receives in order.
use ucx_py.Prelude.{
  ℕ, ◌≡◌, ◌⊎◌, inl, inr, refl, ap, ap₂, sym, ◌∙◌, true, Option, none, some, List, [], ◌∷◌, ◌++◌,
  arith, Dict, insert, contains, lookup-insert, List-cases, if◌then◌else◌, map,
}
use mathlib.Core.List.{append_assoc, map-append}
use ucx_py.Exceptions.{Exn}
use ucx_py.Libs.ActiveMessage.{
  Message, buffer, failure, Object, nothing, message, Delivery, Tables, queue, pushed, push_result,
  am_recv_nb, am_probe, pool_entry,
}

-- What happens to one endpoint: `_push_result` is called with a message, an eager one when it comes and one
-- by rendezvous when it is complete, or a receive is called.
pub data Event : Type 0 where
  pushes : Message → Event
  receives : ℕ → Event

unfoldable pub step : ℕ → Event → Tables → List Delivery × Tables
unfolding push_result am_recv_nb
step ep (pushes m) t = push_result ep m t
step ep (receives r) t = am_recv_nb ep r t

unfoldable pub run : ℕ → List Event → Tables → List Delivery × Tables
run ep [] t = ([], t)
run ep (e ∷ es) t =
    let (ds, t') = step ep e t in let (later, t'') = run ep es t' in (ds ++ later, t'')

queue-insert : {A : Type 0} (k : ℕ) (q : List A) (d : Dict (List A)) → queue k (insert k q d) ≡ q
queue-insert k q d = ground (arith, lookup-insert k k q d)

queue-entry :
    (k : ℕ) (d : Dict (List Message))
    → queue k (if contains k d then d else insert k [] d) ≡ queue k d
queue-entry k d = ground (arith, lookup-insert k k ([]) d)

-- The message that a delivery hands over.
pub content : Object → Option Exn → Option Message
content (message m) x = some m
content nothing none = none
content nothing (some x) = some (failure x)

abbrev pub Pair : Type 0
Pair = ℕ × Option Message

unfoldable pub pair : Delivery → Pair
unfolding content
pair d = (d.receive, content d.recv_obj d.exception)

pair-pushed : (r : ℕ) (m : Message) → pair (pushed r m) ≡ (r, some m)
unfolding pair
pair-pushed r (buffer b) = refl
pair-pushed r (failure x) = refl

-- The same on the two queues of the endpoint alone.
abs_pushes : Message → List Message → List ℕ → List Pair × (List Message × List ℕ)
abs_pushes m ms [] = ([], (ms ++ m ∷ [], []))
abs_pushes m ms (r ∷ rs) = ((r, some m) ∷ [], (ms, rs))

abs_receives : ℕ → List Message → List ℕ → List Pair × (List Message × List ℕ)
abs_receives r (m ∷ ms) rs = ((r, some m) ∷ [], (ms, rs))
abs_receives r [] rs = ([], ([], rs ++ r ∷ []))

abs_step : Event → List Message → List ℕ → List Pair × (List Message × List ℕ)
unfolding abs_pushes abs_receives
abs_step (pushes m) = abs_pushes m
abs_step (receives r) = abs_receives r

abbrev After : ℕ → List Delivery × Tables → List Pair × (List Message × List ℕ) → Type 0
After ep (ds, t) (ps, (ms, rs)) =
    (map pair ds ≡ ps) × (queue ep t.pool ≡ ms) × (queue ep t.wait ≡ rs)

step-After :
    (ep : ℕ) (e : Event) (t : Tables)
    → After ep (step ep e t) (abs_step e (queue ep t.pool) (queue ep t.wait))
unfolding step abs_step pair
step-After ep (pushes m) t = elim (List-cases (queue ep t.wait)) [
  | inl e ↦
      rw (e, push_result, abs_pushes)
        (refl, queue-insert ep _ _ ∙ ap (λ q. q ++ m ∷ []) (queue-entry ep t.pool), e)
  | inr (r, rest, e) ↦
      rw (e, push_result, abs_pushes)
        (ap (λ p. p ∷ []) (pair-pushed r m), queue-entry ep t.pool, queue-insert ep rest t.wait)
]
step-After ep (receives r) t = elim (List-cases (queue ep t.pool)) [
  | inl e ↦ rw (e, am_recv_nb, abs_receives) (refl, e, queue-insert ep _ t.wait)
  | inr (m, rest, e) ↦ rw (e, am_recv_nb, abs_receives) (refl, queue-insert ep rest t.pool, refl)
]

unfoldable pub messages : List Event → List Message
messages [] = []
messages (pushes m ∷ es) = m ∷ messages es
messages (receives r ∷ es) = messages es

unfoldable pub requests : List Event → List ℕ
requests [] = []
requests (pushes m ∷ es) = requests es
requests (receives r ∷ es) = r ∷ requests es

-- The first receive with the first message, and so on.
unfoldable pub zip : List ℕ → List Message → List Pair
zip (r ∷ rs) (m ∷ ms) = (r, some m) ∷ zip rs ms
zip _ _ = []

zip-nil : (rs : List ℕ) → zip rs [] ≡ []
unfolding zip
zip-nil [] = refl
zip-nil (r ∷ rs) = refl

abs_run : List Event → List Message → List ℕ → List Pair
abs_run [] ms rs = []
abs_run (e ∷ es) ms rs = let (ps, (ms', rs')) = abs_step e ms rs in ps ++ abs_run es ms' rs'

run-abs_run :
    (ep : ℕ) (es : List Event) (t : Tables)
    → map pair (run ep es t).0 ≡ abs_run es (queue ep t.pool) (queue ep t.wait)
unfolding run abs_run
run-abs_run ep [] t = refl
run-abs_run ep (e ∷ es) t =
    let (ds, same_pool, same_wait) = step-After ep e t in
    map-append pair (step ep e t).0 (run ep es (step ep e t).1).0
    ∙ ap₂ ◌++◌ ds (run-abs_run ep es (step ep e t).1 ∙ ap₂ (abs_run es) same_pool same_wait)

abs_run-zip :
    (es : List Event) (ms : List Message) (rs : List ℕ)
    → (ms ≡ []) ⊎ (rs ≡ [])
    → abs_run es ms rs ≡ zip (rs ++ requests es) (ms ++ messages es)
unfolding abs_run abs_step zip messages requests
abs_run-zip [] [] rs one = sym (zip-nil (rs ++ []))
abs_run-zip [] (m ∷ ms) [] one = refl
abs_run-zip [] (m ∷ ms) (r ∷ rs) one = elim one [ inl e ↦ cc | inr e ↦ cc ]
abs_run-zip (pushes m ∷ es) ms [] one =
    abs_run-zip es (ms ++ m ∷ []) [] (inr refl)
    ∙ ap (zip (requests es)) (append_assoc ms (m ∷ []) (messages es))
abs_run-zip (pushes m ∷ es) [] (r ∷ rs) one = ap (◌∷◌ (r, some m)) (abs_run-zip es [] rs (inl refl))
abs_run-zip (pushes m ∷ es) (x ∷ ms) (r ∷ rs) one = elim one [ inl e ↦ cc | inr e ↦ cc ]
abs_run-zip (receives r ∷ es) [] rs one =
    abs_run-zip es [] (rs ++ r ∷ []) (inl refl)
    ∙ ap (λ q. zip q (messages es)) (append_assoc rs (r ∷ []) (requests es))
abs_run-zip (receives r ∷ es) (m ∷ ms) [] one =
    ap (◌∷◌ (r, some m)) (abs_run-zip es ms [] (inr refl))
abs_run-zip (receives r ∷ es) (m ∷ ms) (x ∷ rs) one = elim one [ inl e ↦ cc | inr e ↦ cc ]

-- In whatever order `_push_result` is called with messages of an endpoint, an eager one when it
-- comes and one by rendezvous when it is complete, and receives are called on it, from empty queues
-- the first receive gets the message of the first call, the second that of the second, and so on,
-- each once.
pub run_in_order :
    (ep : ℕ) (es : List Event) (t : Tables)
    → queue ep t.pool ≡ []
    → queue ep t.wait ≡ []
    → map pair (run ep es t).0 ≡ zip (requests es) (messages es)
run_in_order ep es t p w =
    run-abs_run ep es t ∙ ap₂ (abs_run es) p w ∙ abs_run-zip es [] [] (inl refl)

probe-insert :
    (k : ℕ) (q : List Message) (d : Dict (List Message)) → contains k (insert k q d) ≡ true
probe-insert k q d = ground (arith, lookup-insert k k q d)

probe-entry : (k : ℕ) (d : Dict (List Message)) → contains k (pool_entry k d) ≡ true
probe-entry k d = ground (arith, lookup-insert k k ([]) d)

am_probe-pushes : (ep : ℕ) (m : Message) (t : Tables) → am_probe ep (push_result ep m t).1 ≡ true
unfolding push_result am_probe
am_probe-pushes ep m t = elim (List-cases (queue ep t.wait)) [
  | inl e ↦ rw (e, push_result) (probe-insert ep _ (pool_entry ep t.pool))
  | inr (r, rest, e) ↦ rw (e, push_result) (probe-entry ep t.pool)
]

am_probe-step :
    (ep : ℕ) (e : Event) (t : Tables) → am_probe ep t ≡ true → am_probe ep (step ep e t).1 ≡ true
unfolding step am_probe am_recv_nb
am_probe-step ep (pushes m) t h = am_probe-pushes ep m t
am_probe-step ep (receives r) t h = elim (List-cases (queue ep t.pool)) [
  | inl e ↦ rw (e, am_recv_nb) h
  | inr (m, rest, e) ↦ rw (e, am_recv_nb) (probe-insert ep rest t.pool)
]

am_probe-run :
    (ep : ℕ) (es : List Event) (t : Tables)
    → am_probe ep t ≡ true
    → am_probe ep (run ep es t).1 ≡ true
unfolding run
am_probe-run ep [] t h = h
am_probe-run ep (e ∷ es) t h = am_probe-run ep es (step ep e t).1 (am_probe-step ep e t h)

-- Once `_push_result` has been called with a message, `am_probe` is true for ever, also after all messages have been
-- received.
pub am_probe_sticks :
    (ep : ℕ) (m : Message) (es : List Event) (t : Tables)
    → am_probe ep (run ep (pushes m ∷ es) t).1 ≡ true
unfolding run step
am_probe_sticks ep m es t = am_probe-run ep es (push_result ep m t).1 (am_probe-pushes ep m t)
