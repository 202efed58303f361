-- ===== src/Core/Endpoint.antt =====
-- Class Endpoint of ucp/core.py. A coroutine is cut at its awaits: `send_start` runs to the await
-- and `send_end` goes on with the outcome of the awaited future; other coroutines run in between.
pub mod Close
pub mod Ctrl
pub mod Events
pub mod Invariant
pub mod Shutdown
pub mod Closing
pub mod Awaits
pub mod Counts
pub mod Refusal
pub mod Tests
use ucx_py.Prelude.{
  ℕ, ◌+◌, Bool, true, false, not, ◌||◌, Option, none, some, List, [], ◌∷◌, ◌==◌, ltb, leb,
  if◌then◌else◌,
}
use ucx_py.Exceptions.{Exn, Result, ok, err}
use ucx_py.Action.{Action, pure, raise, gets, lift, or_raise, ◌>>=◌, ◌>>◌, raise_if, modify}
use ucx_py.Hash.{Digest, Arg, hash64bits}
use ucx_py.Libs.UcxEndpoint.{UcxEndpoint, initialized}
use ucx_py.Libs.UcxEndpoint

pub record Tags : Type 0 where
  pub msg_send : ℕ
  pub msg_recv : ℕ
  pub ctrl_send : ℕ
  pub ctrl_recv : ℕ

-- `ep` is `_ep`, `ctx` stands for the reference `_ctx` to the application context.
pub record Endpoint : Type 0 where
  pub ep : Option UcxEndpoint
  pub ctx : Option ℕ
  pub send_count : ℕ
  pub recv_count : ℕ
  pub finished_recv_count : ℕ
  pub shutting_down_peer : Bool
  pub close_after : Option ℕ
  pub tags : Option Tags

-- `__init__`
unfoldable pub init : UcxEndpoint → ℕ → Option Tags → Endpoint
init endpoint ctx tags = record {
  ep = some endpoint;
  ctx = some ctx;
  send_count = 0;
  recv_count = 0;
  finished_recv_count = 0;
  shutting_down_peer = false;
  close_after = none;
  tags = tags;
}

-- A call of a method of `self._ep`, which may be `None`.
unfoldable pub on_ep : {A : Type 0} → Action UcxEndpoint A → Action Endpoint A
on_ep m e = elim e.ep [
  | none ↦ (err Exn.attribute_error, e)
  | some b ↦ let (r, b') = m b in (r, record e { ep = some b' })
]

unfoldable pub uid : Action Endpoint ℕ
unfolding on_ep UcxEndpoint.handle
uid = on_ep UcxEndpoint.handle

unfoldable pub closed : Endpoint → Bool
closed e = elim e.ep [ none ↦ true | some b ↦ not (initialized b) || not (UcxEndpoint.is_alive b) ]

close_ep : Option UcxEndpoint → Action Endpoint (Unit {0})
unfolding uid on_ep UcxEndpoint.close
close_ep none = pure tt
close_ep (some b) = do uid; on_ep UcxEndpoint.close

abbrev pub detach : Endpoint → Endpoint
detach e = record e { ep = none; ctx = none }

-- The handle is named in a log message first, which asserts that it is initialized.
unfoldable pub abort : Action Endpoint (Unit {0})
unfolding close_ep
abort = do ep ← gets (λ e. e.ep); close_ep ep; modify detach

-- A tag of the caller: the value itself, which is sent as it is when forced, and its `hash`.
pub record UserTag : Type 0 where
  pub value : ℕ
  pub hash : Arg

-- The first lines of `send` and `recv`, on the field that each reads of `self._tags`.
unfoldable pub select_tag : Digest → (Tags → ℕ) → Option UserTag → Bool → Action Endpoint ℕ
select_tag sha1 field none force_tag = do
  tags ← gets (λ e. e.tags)
  t ← or_raise tags Exn.type_error
  pure (field t)
select_tag sha1 field (some tag) true = pure tag.value
select_tag sha1 field (some tag) false = do
  tags ← gets (λ e. e.tags)
  t ← or_raise tags Exn.type_error
  pure (hash64bits sha1 (Arg.num (field t) ∷ tag.hash ∷ []))

abbrev pub require_open : Action Endpoint (Unit {0})
require_open = do c ← gets closed; raise_if c Exn.ucx_close_error

-- `send` up to its await: the size and the tag of the message that goes out. `buffer` is what
-- `Array(buffer)` gives, its size or what it raises.
unfoldable pub send_start : Digest → Result ℕ → Option UserTag → Bool → Action Endpoint (ℕ × ℕ)
unfolding on_ep UcxEndpoint.raise_on_error closed select_tag uid
send_start sha1 buffer tag force_tag = do
  on_ep UcxEndpoint.raise_on_error
  require_open
  nbytes ← lift buffer
  t ← select_tag sha1 (λ tags. tags.msg_send) tag force_tag
  uid
  modify (λ e. record e { send_count = e.send_count + 1 })
  pure (nbytes, t)

-- A cancelled send is passed over while the endpoint is still there.
unfoldable pub send_end : Result (Unit {0}) → Action Endpoint (Unit {0})
send_end (ok r) e = (ok r, e)
send_end (err Exn.ucx_canceled) e = elim e.ep [
  | none ↦ (err Exn.ucx_canceled, e)
  | some b ↦ (ok tt, e)
]
send_end (err x) e = (err x, e)

unfoldable pub am_send_start : Result ℕ → Action Endpoint ℕ
unfolding closed uid
am_send_start buffer = do
  require_open
  nbytes ← lift buffer
  uid
  modify (λ e. record e { send_count = e.send_count + 1 })
  pure nbytes

abbrev checked : Bool → Action Endpoint (Unit {0})
checked probed = if probed then pure tt else (do on_ep UcxEndpoint.raise_on_error; require_open)

-- `recv` up to its await. `tag_probe` is the worker's: whether a message with the tag has come.
unfoldable pub recv_start :
    Digest → (ℕ → Bool) → Result ℕ → Option UserTag → Bool → Action Endpoint (ℕ × ℕ)
unfolding on_ep UcxEndpoint.raise_on_error closed select_tag uid
recv_start sha1 tag_probe buffer tag force_tag = do
  t ← select_tag sha1 (λ tags. tags.msg_recv) tag force_tag
  ctx ← gets (λ e. e.ctx)
  or_raise ctx Exn.attribute_error
  checked (tag_probe t)
  nbytes ← lift buffer
  uid
  modify (λ e. record e { recv_count = e.recv_count + 1 })
  pure (nbytes, t)

-- `am_recv` up to its await. `am_probe` is UCXEndpoint's, which reads the handle first.
unfoldable pub am_recv_start : Bool → Action Endpoint (Unit {0})
unfolding on_ep UcxEndpoint.raise_on_error closed uid
am_recv_start am_probe = do
  uid
  checked am_probe
  uid
  modify (λ e. record e { recv_count = e.recv_count + 1 })

is_due : Endpoint → Bool
is_due e = elim e.close_after [ none ↦ false | some n ↦ leb n e.finished_recv_count ]

-- `recv` and `am_recv` after their await.
unfoldable pub recv_end : Result (Unit {0}) → Action Endpoint (Unit {0})
unfolding abort is_due
recv_end outcome = do
  lift outcome
  modify (λ e. record e { finished_recv_count = e.finished_recv_count + 1 })
  due ← gets is_due
  if due then abort else pure tt

close_at : ℕ → Action Endpoint (Unit {0})
unfolding abort
close_at n e =
    if n == e.finished_recv_count
    then abort e
    else (if ltb e.finished_recv_count n
        then (ok tt, record e { close_after = some n })
        else (err Exn.ucx_error, e))

unfoldable pub close_after_n_recv : ℕ → Bool → Action Endpoint (Unit {0})
unfolding close_at
close_after_n_recv n count_from_ep_creation e =
    let total = if count_from_ep_creation then n else n + e.finished_recv_count in
    elim e.close_after [ none ↦ close_at total e | some m ↦ (err Exn.ucx_error, e) ]

unfoldable pub set_close_callback : ℕ → Action Endpoint (Unit {0})
unfolding on_ep
set_close_callback f = on_ep (UcxEndpoint.set_close_callback f)
