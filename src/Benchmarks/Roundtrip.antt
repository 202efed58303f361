-- ===== src/Benchmarks/Roundtrip.antt =====
-- benchmarks/send-recv.py: the messages that its client and its server exchange, by tag or as active
-- messages, and the end of both.
pub mod Ends
mod Tests
use ucx_py.Prelude.{
  ℕ, zero, suc, ◌+◌, ◌*◌, ◌<◌, ◌≡◌, refl, ap, sym, ◌∙◌, Bool, true, false, not, ◌&&◌, Option, none,
  some, List, [], ◌∷◌, ◌++◌, if◌then◌else◌, arith, ◌⊎◌, inl, inr, ◌==◌, ltb,
}
use ucx_py.Exceptions.{Exn, Result, ok, err}
use ucx_py.Struct.{Bytes}

-- What a loop awaits next.
pub data Phase : Type 0 where
  sending receiving : Phase

-- Both loops with the iterations that are left, the messages in flight to either side, the message that
-- the server holds, those that the client has received, and have the endpoint and the listener been
-- closed?
pub record State : Type 0 where
  pub client_left : ℕ
  pub client : Phase
  pub server_left : ℕ
  pub server : Phase
  pub up : List Bytes
  pub down : List Bytes
  pub held : Bytes
  pub got : List Bytes
  pub closed : Bool

abbrev pub start : ℕ → State
start n_iter = record {
  client_left = n_iter;
  client = sending;
  server_left = n_iter;
  server = receiving;
  up = [];
  down = [];
  held = [];
  got = [];
  closed = false;
}

-- Before the loops both sides make their messages. By tag, `by_tag`, they assert on the first of them,
-- which raises IndexError where there is none.
unfoldable pub begin : Bool → ℕ → Result State
begin by_tag n_iter = if by_tag && n_iter == 0 then err Exn.index_error else ok (start n_iter)

-- An await of a loop ends, or the server is past its loop and closes.
pub data Move : Type 0 where
  client_sent server_received server_sent client_received server_closed : Move

-- `none`: the move cannot happen. `msg` is what the client sends, in every iteration the same.
unfoldable pub move : Bytes → Move → State → Option State
move msg client_sent s = elim s.client_left [
  | zero ↦ none
  | suc k ↦ elim s.client [
    | receiving ↦ none
    | sending ↦ some (record s { client = receiving; up = s.up ++ msg ∷ [] })
  ]
]
move msg server_received s = elim s.server_left [
  | zero ↦ none
  | suc k ↦ elim s.server [
    | sending ↦ none
    | receiving ↦ elim s.up [
      | [] ↦ none
      | m ∷ rest ↦ some (record s { server = sending; up = rest; held = m })
    ]
  ]
]
move msg server_sent s = elim s.server_left [
  | zero ↦ none
  | suc k ↦ elim s.server [
    | receiving ↦ none
    | sending ↦
        some (record s { server = receiving; server_left = k; down = s.down ++ s.held ∷ [] })
  ]
]
move msg client_received s = elim s.client_left [
  | zero ↦ none
  | suc k ↦ elim s.client [
    | sending ↦ none
    | receiving ↦ elim s.down [
      | [] ↦ none
      | m ∷ rest ↦
          some (record s { client = sending; client_left = k; down = rest; got = s.got ++ m ∷ [] })
    ]
  ]
]
move msg server_closed s = elim s.server_left [
  | zero ↦ if s.closed then none else some (record s { closed = true })
  | suc k ↦ none
]

-- The states that a run of so many iterations comes to, once it has begun.
pub data Reach (by_tag : Bool) (n_iter : ℕ) (msg : Bytes) : State → Type 0 where
  here : {s : State} → begin by_tag n_iter ≡ ok s → Reach by_tag n_iter msg s
  next :
      {s s' : State}
      → Reach by_tag n_iter msg s
      → (m : Move) → move msg m s ≡ some s'
      → Reach by_tag n_iter msg s'
