-- ===== src/Reuse.antt =====
-- ucp/endpoint_reuse.py: virtual endpoints that share the endpoints of the core.
pub mod Match
pub mod Counts
pub mod Closing
pub mod Virtual
mod Tests
use ucx_py.Prelude.{
  ℕ, Bool, true, false, not, ◌&&◌, Option, none, some, List, [], ◌∷◌, ◌++◌, map, ◌==◌,
  if◌then◌else◌, Dict, lookup, insert, contains,
}
use ucx_py.Prelude.Int.{ℤ, pos, negsuc, inc, dec, is_zero}
use ucx_py.Exceptions.{Exn, Result, ok, err}

-- EpHandle, with what is read of its endpoint: whether it is not closed, and the tag on which it
-- receives.
pub record EpHandle : Type 0 where
  pub is_open : Bool
  pub refcount : ℤ
  pub msg_recv : ℕ

-- `EndpointReuse.existing_endpoints`, by the tag on which the endpoint sends. A handle is registered
-- once and never taken out, so its key stands for the object.
abbrev pub Existing : Type 0
Existing = Dict EpHandle

unfoldable pub modify_at : ℕ → (EpHandle → EpHandle) → Existing → Existing
modify_at k f [] = []
modify_at k f ((j, h) ∷ d) = if k == j then (j, f h) ∷ d else (j, h) ∷ modify_at k f d

-- The first loop of `create_endpoint`: every open endpoint is held on to, and its ID goes to the
-- server.
abbrev pub hold : EpHandle → EpHandle
hold h = if h.is_open then record h { refcount = inc h.refcount } else h

unfoldable pub hold_all : Existing → Existing
hold_all [] = []
hold_all ((k, h) ∷ d) = (k, hold h) ∷ hold_all d

unfoldable pub my_ep_ids : Existing → List ℕ
my_ep_ids [] = []
my_ep_ids ((k, h) ∷ d) = let ids = my_ep_ids d in if h.is_open then h.msg_recv ∷ ids else ids

abbrev pub keys : Existing → List ℕ
keys = map λ entry. entry.0

-- Letting go of one reference: the last one closes the endpoint.
abbrev pub drop_ref : EpHandle → EpHandle
drop_ref h =
    let count = dec h.refcount in
    if is_zero count
    then record h { refcount = count; is_open = false }
    else record h { refcount = count }

abbrev pub let_go : EpHandle → EpHandle
let_go h = if h.is_open then drop_ref h else h

-- The second loop of `create_endpoint`, over the handles that the first one went through.
unfoldable pub let_go_all : List ℕ → Existing → Existing
unfolding modify_at
let_go_all [] d = d
let_go_all (k ∷ ks) d = let_go_all ks (modify_at k let_go d)

-- A new endpoint: the tag it sends on, and the tag it receives on.
abbrev register : ℕ → ℕ → Existing → Result ℕ × Existing
register msg_send msg_recv d = if contains msg_send d then (err Exn.assertion_error, d) else (
  ok msg_send,
  insert msg_send (record { is_open = true; refcount = pos 1; msg_recv = msg_recv }) d,
)

share : ℕ → Existing → Result ℕ × Existing
unfolding modify_at
share k d = elim (lookup k d) [
  | none ↦ (err Exn.key_error, d)
  | some h ↦ (ok k, modify_at k (λ g. record g { refcount = inc g.refcount }) d)
]

-- The rest of `create_endpoint`, from the answer of the server on: the key of the handle that the
-- virtual endpoint gets. `held` are the keys at the time of the first loop. An answer of 0 or None
-- is no match.
unfoldable pub create_endpoint : List ℕ → Option ℕ → ℕ → ℕ → Existing → Result ℕ × Existing
unfolding let_go_all share
create_endpoint held reuse_ep_id msg_send msg_recv d =
    let d' = let_go_all held d in
    elim reuse_ep_id [
      | none ↦ register msg_send msg_recv d'
      | some id ↦ if id == 0 then register msg_send msg_recv d' else share id d'
    ]

-- The loop of `_handle` over the client's IDs, with the value of `existing_ep` so far.
unfoldable pub find_match : Existing → Option ℕ → List ℕ → Option ℕ
find_match d found [] = found
find_match d found (id ∷ ids) =
    let later = find_match d (if contains id d then some id else none) ids in
    elim (lookup id d) [ none ↦ later | some h ↦ if h.is_open then some id else later ]

-- `_handle` of `create_listener`: the key of the handle, and the ID that is sent to the client.
unfoldable pub handle_client : List ℕ → ℕ → ℕ → Existing → Result (ℕ × Option ℕ) × Existing
unfolding find_match share
handle_client peers_ep_ids msg_send msg_recv d = elim (find_match d none peers_ep_ids) [
  | some k ↦
      (let (r, d') = share k d in
        elim r [
          | ok k ↦ (ok (k, elim (lookup k d) [ none ↦ none | some h ↦ some h.msg_recv ]), d')
          | err x ↦ (err x, d')
        ])
  | none ↦
      (let (r, d') = register msg_send msg_recv d in
        elim r [ ok k ↦ (ok (k, none), d') | err x ↦ (err x, d') ])
]

-- A virtual endpoint is its `handle`, a key or None, which the class shares by reference.
unfoldable pub closed : Option ℕ → Existing → Bool
closed none d = true
closed (some k) d = elim (lookup k d) [ none ↦ true | some h ↦ not h.is_open ]

-- `close` and `abort`, which differ in how the last of them closes the endpoint. The attribute
-- `handle` is only cleared with the last reference.
unfoldable pub close : Option ℕ → Existing → Option ℕ × Existing
unfolding modify_at
close none d = (none, d)
close (some k) d = elim (lookup k d) [
  | none ↦ (some k, d)
  | some h ↦
      if h.is_open
      then ((if is_zero (dec h.refcount) then none else some k), modify_at k drop_ref d)
      else (some k, d)
]
