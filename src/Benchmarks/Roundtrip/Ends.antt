-- ===== src/Benchmarks/Roundtrip/Ends.antt =====
-- Every run of both loops of benchmarks/send-recv.py goes on until all is exchanged and closed.
use ucx_py.Prelude.{
  ℕ, zero, suc, ◌+◌, ◌*◌, ◌<◌, ◌≡◌, refl, ap, sym, ◌∙◌, Bool, true, false, Option, none, some, List,
  [], ◌∷◌, ◌++◌, if◌then◌else◌, arith, ◌⊎◌, inl, inr, Option-cases,
}
use ucx_py.Exceptions.{ok}
use ucx_py.Struct.{Bytes}
use ucx_py.Benchmarks.Roundtrip.{
  sending, receiving, State, Move, client_sent, server_received, server_sent, client_received,
  server_closed, start, begin, move, Reach, here, next,
}

abbrev pub copies : Bytes → ℕ → List Bytes
copies msg zero = []
copies msg (suc n) = copies msg n ++ msg ∷ []

data Turn : Type 0 where
  client_turn up_turn server_turn down_turn : Turn

-- Where a run stands: `rest` iterations are to come behind those that are done and the one under way.
record Place : Type 0 where
  turn : Turn
  over : ℕ
  rest : ℕ
  kept : Bytes
  shut : Bool

at : Bytes → Turn → ℕ → ℕ → Bytes → Bool → State
at msg client_turn d k h c = record {
  client_left = k;
  client = sending;
  server_left = k;
  server = receiving;
  up = [];
  down = [];
  held = h;
  got = copies msg d;
  closed = c;
}
at msg up_turn d k h c = record {
  client_left = suc k;
  client = receiving;
  server_left = suc k;
  server = receiving;
  up = msg ∷ [];
  down = [];
  held = h;
  got = copies msg d;
  closed = c;
}
at msg server_turn d k h c = record {
  client_left = suc k;
  client = receiving;
  server_left = suc k;
  server = sending;
  up = [];
  down = [];
  held = msg;
  got = copies msg d;
  closed = c;
}
at msg down_turn d k h c = record {
  client_left = suc k;
  client = receiving;
  server_left = k;
  server = receiving;
  up = [];
  down = msg ∷ [];
  held = h;
  got = copies msg d;
  closed = c;
}

-- The one move, if any, apart from the closing.
goes : Bytes → Move → Turn → ℕ → ℕ → Bytes → Bool → Option Place
goes msg client_sent client_turn d (suc k) h c =
    some (record { turn = up_turn; over = d; rest = k; kept = h; shut = c })
goes msg server_received up_turn d k h c =
    some (record { turn = server_turn; over = d; rest = k; kept = msg; shut = c })
goes msg server_sent server_turn d k h c =
    some (record { turn = down_turn; over = d; rest = k; kept = msg; shut = c })
goes msg client_received down_turn d k h c =
    some (record { turn = client_turn; over = suc d; rest = k; kept = h; shut = c })
goes msg server_closed client_turn d zero h false =
    some (record { turn = client_turn; over = d; rest = zero; kept = h; shut = true })
goes msg server_closed down_turn d zero h false =
    some (record { turn = down_turn; over = d; rest = zero; kept = h; shut = true })
goes msg m turn d k h c = none

at_place : Bytes → Place → State
at_place msg p = at msg p.turn p.over p.rest p.kept p.shut

stateof : Bytes → Option Place → Option State
stateof msg none = none
stateof msg (some p) = some (at_place msg p)

move-at :
    (msg : Bytes) (m : Move) (turn : Turn) (d k : ℕ) (h : Bytes) (c : Bool)
    → move msg m (at msg turn d k h c) ≡ stateof msg (goes msg m turn d k h c)
unfolding move at goes stateof at_place
move-at msg m turn d k h c = ground arith

-- The moves that are left, and the iterations, as far as the place tells.
turn_work : Turn → ℕ
turn_work client_turn = 0
turn_work up_turn = 3
turn_work server_turn = 2
turn_work down_turn = 1

work : Turn → ℕ → Bool → ℕ
work turn k c = 4 * k + turn_work turn + (if c then 0 else 1)

under_way : Turn → ℕ
under_way client_turn = 0
under_way up_turn = 1
under_way server_turn = 1
under_way down_turn = 1

goes-work :
    (msg : Bytes) (m : Move) (turn : Turn) (d k : ℕ) (h : Bytes) (c : Bool) (p : Place)
    → goes msg m turn d k h c ≡ some p
    → (work p.turn p.rest p.shut + 1 ≡ work turn k c)
      × (p.over + p.rest + under_way p.turn ≡ d + k + under_way turn)
unfolding goes work turn_work under_way
goes-work msg m turn d k h c p e = ground (arith, e)

goes_on :
    (msg : Bytes) (turn : Turn) (d k : ℕ) (h : Bytes) (c : Bool)
    → ((m : Move) × (p : Place) × (goes msg m turn d k h c ≡ some p))
      ⊎ ((turn ≡ client_turn) × (k ≡ 0) × (c ≡ true))
unfolding goes
goes_on msg client_turn d zero h false = inl (server_closed, _, refl)
goes_on msg client_turn d zero h true = inr (refl, refl, refl)
goes_on msg client_turn d (suc k) h c = inl (client_sent, _, refl)
goes_on msg up_turn d k h c = inl (server_received, _, refl)
goes_on msg server_turn d k h c = inl (server_sent, _, refl)
goes_on msg down_turn d k h c = inl (client_received, _, refl)

-- The moves of a run.
abbrev pub moves : {by_tag : Bool} {n : ℕ} {msg : Bytes} {s : State} → Reach by_tag n msg s → ℕ
moves (here e) = 0
moves (next r m e) = suc (moves r)

-- A state of a run is at a place, and the moves made and left are as many as from the start.
record Found (n : ℕ) (msg : Bytes) (s : State) (made : ℕ) : Type 0 where
  place : Place
  is_at : s ≡ at_place msg place
  left : made + work place.turn place.rest place.shut ≡ 4 * n + 1
  iterations : place.over + place.rest + under_way place.turn ≡ n

some_lem : {A : Type 0} (a b : A) → some a ≡ some b → a ≡ b
some_lem a b e = ground (arith, e)

begin-start : (by_tag : Bool) (n : ℕ) (s : State) → begin by_tag n ≡ ok s → s ≡ start n
unfolding begin
begin-start by_tag n s e = ground arith

Reach-Found :
    {by_tag : Bool} {n : ℕ} {msg : Bytes} (s : State) (r : Reach by_tag n msg s)
    → Found n msg s (moves r)
unfolding at_place at work turn_work under_way stateof
Reach-Found {by_tag} {n} {msg} s (here e) = record {
  place = record { turn = client_turn; over = 0; rest = n; kept = []; shut = false };
  is_at = begin-start by_tag n s e;
  left = omega arith;
  iterations = omega arith;
}
Reach-Found {by_tag} {n} {msg} s' (next {s} r m e) =
    let f = Reach-Found s r in
    let p = f.place in
    let e' : stateof msg (goes msg m p.turn p.over p.rest p.kept p.shut) ≡ some s' =
      sym (move-at msg m p.turn p.over p.rest p.kept p.shut) ∙ ap (move msg m) (sym f.is_at) ∙ e in
    elim (Option-cases (goes msg m p.turn p.over p.rest p.kept p.shut)) [
      | inl nothing ↦ absurd (ground (arith, e', nothing))
      | inr (q, there) ↦
          (let (w, i) = goes-work msg m p.turn p.over p.rest p.kept p.shut q there in
            record {
              place = q;
              is_at = some_lem s' (at_place msg q) (sym e' ∙ ap (stateof msg) there);
              left = omega (arith, w, f.left);
              iterations = omega (arith, i, f.iterations);
            })
    ]

-- In every run of the client and the server of send-recv.py, which does not begin by tag with no
-- iterations, since both sides then raise IndexError, and however the awaits of both loops end one
-- after the other: either a move can happen and fewer than 4 n + 1 moves have been made, or exactly
-- as many have been made, no iteration is left on either side, the client has received n times what
-- it sent, and the server has closed.
pub Reach-ends :
    (by_tag : Bool) (n : ℕ) (msg : Bytes) (s : State) (r : Reach by_tag n msg s)
    → ((m : Move) × (s' : State) × (move msg m s ≡ some s') × (moves r < 4 * n + 1))
      ⊎ ((moves r ≡ 4 * n + 1)
          × (s.client_left ≡ 0)
          × (s.server_left ≡ 0)
          × (s.got ≡ copies msg n)
          × (s.closed ≡ true))
unfolding at_place at work turn_work under_way stateof
Reach-ends by_tag n msg s r =
    let f = Reach-Found s r in
    let p = f.place in
    elim (goes_on msg p.turn p.over p.rest p.kept p.shut) [
      | inl (m, q, there) ↦ inl (
        m,
        at_place msg q,
        ap (move msg m) f.is_at
            ∙ move-at msg m p.turn p.over p.rest p.kept p.shut
            ∙ ap (stateof msg) there,
        omega (arith, f.left, (goes-work msg m p.turn p.over p.rest p.kept p.shut q there).0),
      )
      | inr (t, z, c) ↦
          (let e : s ≡ at msg client_turn p.over 0 p.kept true =
              f.is_at ∙ rw (at_place, t, z, c) refl in
            let over : p.over ≡ n = ground (arith, f.iterations, t, z) in
            inr (
              ground (arith, f.left, t, z, c),
              ap (λ x. x.client_left) e,
              ap (λ x. x.server_left) e,
              ap (λ x. x.got) e ∙ ap (copies msg) over,
              ap (λ x. x.closed) e,
            ))
    ]
