-- ===== src/Core/PeerInfo/Exchange.antt =====
-- The exchange between two sides over a stream in each direction.
use ucx_py.Prelude.{
  ℕ, zero, suc, ◌≤◌, ◌<◌, take_all, drop_all, ◌≡◌, refl, ap, ◌∙◌, ◌⊎◌, inl, inr, Bool, true, false,
  Option, none, some, List, [], ◌∷◌, ◌++◌, arith, leb, if◌then◌else◌, length, take, drop,
}
use native.Mathlib.Decide.{dec_lt}
use ucx_py.Struct.{Bytes}
use ucx_py.Core.PeerInfo.{StreamOp, stream_send, stream_recv, streaming_calls}

-- A side: the calls that it has still to make, and what it has received.
pub record Side : Type 0 where
  pub calls : List StreamOp
  pub got : Option Bytes

-- Two sides, with the bytes that are under way to each.
pub record Net : Type 0 where
  pub a : Side
  pub b : Side
  pub to_a : Bytes
  pub to_b : Bytes

-- One call of a side with the streams that it reads and writes; `none` where it has to wait.
unfoldable pub call : List StreamOp → Option Bytes → Bytes → Bytes → Option (Side × Bytes × Bytes)
call [] got reads writes = none
call (stream_send info ∷ rest) got reads writes =
    some (record { calls = rest; got = got }, reads, writes ++ info)
call (stream_recv n ∷ rest) got reads writes =
    if leb n (length reads)
    then some (record { calls = rest; got = some (take n reads) }, drop n reads, writes)
    else none

-- Either side makes its next call.
unfoldable pub step_a : Net → Option Net
step_a n = elim (call n.a.calls n.a.got n.to_a n.to_b) [
  | none ↦ none
  | some (s, reads, writes) ↦ some (record { a = s; b = n.b; to_a = reads; to_b = writes })
]

unfoldable pub step_b : Net → Option Net
step_b n = elim (call n.b.calls n.b.got n.to_b n.to_a) [
  | none ↦ none
  | some (s, reads, writes) ↦ some (record { a = n.a; b = s; to_a = writes; to_b = reads })
]

-- `Run m j n`: from m the sides come to n by j calls, in some order.
pub data Run (m : Net) : ℕ → Net → Type 0 where
  here : Run m zero m
  on_a : {j : ℕ} {n k : Net} → Run m j n → step_a n ≡ some k → Run m (suc j) k
  on_b : {j : ℕ} {n k : Net} → Run m j n → step_b n ≡ some k → Run m (suc j) k

-- Side a calls as a listener or not, and so does side b.
unfoldable pub meet : Bool → Bytes → Bool → Bytes → Net
meet la x lb y = record {
  a = record { calls = streaming_calls la x; got = none };
  b = record { calls = streaming_calls lb y; got = none };
  to_a = [];
  to_b = [];
}

-- Both sides are done, and each has the message of the other.
abbrev pub finished : Bytes → Bytes → Net
finished x y = record {
  a = record { calls = []; got = some y };
  b = record { calls = []; got = some x };
  to_a = [];
  to_b = [];
}

module _ (x y : Bytes) (length_x : length x ≡ 24) (length_y : length y ≡ 24) where
  -- The state after j calls.
  abbrev stage : ℕ → Net
  stage zero = record {
    a = record { calls = stream_send x ∷ stream_recv (length x) ∷ []; got = none };
    b = record { calls = stream_recv (length y) ∷ stream_send y ∷ []; got = none };
    to_a = [];
    to_b = [];
  }
  stage (suc zero) = record {
    a = record { calls = stream_recv (length x) ∷ []; got = none };
    b = record { calls = stream_recv (length y) ∷ stream_send y ∷ []; got = none };
    to_a = [];
    to_b = x;
  }
  stage (suc (suc zero)) = record {
    a = record { calls = stream_recv (length x) ∷ []; got = none };
    b = record { calls = stream_send y ∷ []; got = some x };
    to_a = [];
    to_b = [];
  }
  stage (suc (suc (suc zero))) = record {
    a = record { calls = stream_recv (length x) ∷ []; got = none };
    b = record { calls = []; got = some x };
    to_a = y;
    to_b = [];
  }
  stage _ = finished x y

  take_x : take (length y) x ≡ x
  take_x = rw (length_y, ← length_x) (take_all x)

  drop_x : drop (length y) x ≡ []
  drop_x = rw (length_y, ← length_x) (drop_all x)

  take_y : take (length x) y ≡ y
  take_y = rw (length_x, ← length_y) (take_all y)

  drop_y : drop (length x) y ≡ []
  drop_y = rw (length_x, ← length_y) (drop_all y)

  -- At each stage one side can make its call, and it leads to the next stage.
  abbrev Next : ℕ → Net → Type 0
  Next j n =
      ((step_a n ≡ some (stage (suc j))) × (step_b n ≡ none))
      ⊎ ((step_a n ≡ none) × (step_b n ≡ some (stage (suc j))))

  stage-Next : (j : ℕ) → j < 4 → Next j (stage j)
  unfolding step_a step_b call
  stage-Next zero h = inl (ground arith, ground arith)
  stage-Next (suc zero) h = inr (ground arith, ground (arith, take_x, drop_x))
  stage-Next (suc (suc zero)) h = inr (ground arith, ground arith)
  stage-Next (suc (suc (suc zero))) h = inl (ground (arith, take_y, drop_y), ground arith)
  stage-Next (suc (suc (suc (suc j)))) h = absurd (omega arith)

  stage_end : (j : ℕ) → 4 ≤ j → (step_a (stage j) ≡ none) × (step_b (stage j) ≡ none)
  unfolding step_a step_b call
  stage_end zero h = absurd (omega arith)
  stage_end (suc zero) h = absurd (omega arith)
  stage_end (suc (suc zero)) h = absurd (omega arith)
  stage_end (suc (suc (suc zero))) h = absurd (omega arith)
  stage_end (suc (suc (suc (suc j)))) h = (refl, refl)

  meet-stage : meet true x false y ≡ stage zero
  unfolding meet streaming_calls
  meet-stage = refl

  step-stage :
      (j : ℕ) (n k : Net)
      → n ≡ stage j
      → (step_a n ≡ some k) ⊎ (step_b n ≡ some k)
      → (j < 4) × (k ≡ stage (suc j))
  step-stage j n k at_ moved = elim (dec_lt j 4) [
    | yes h ↦ (h, ground (arith, stage-Next j h))
    | no h ↦ absurd (ground (arith, stage_end j (omega arith)))
  ]

  Run-stage : {j : ℕ} {n : Net} → Run (meet true x false y) j n → (j ≤ 4) × (n ≡ stage j)
  Run-stage here = (omega arith, meet-stage)
  Run-stage (on_a {j} {n} {k} r e) =
      let s = step-stage j n k (Run-stage r).1 (inl e) in (omega (arith, s.0), s.1)
  Run-stage (on_b {j} {n} {k} r e) =
      let s = step-stage j n k (Run-stage r).1 (inr e) in (omega (arith, s.0), s.1)

  -- A listener and a client with messages of 24 bytes, in whatever order their streaming calls are
  -- made: after four calls both are done and each has the message of the other; before that, one
  -- side can make its call.
  pub exchange_completes :
      {j : ℕ} {n : Net}
      → Run (meet true x false y) j n
      → ((j ≡ 4) × (n ≡ finished x y))
        ⊎ ((j < 4) × ((k : Net) × ((step_a n ≡ some k) ⊎ (step_b n ≡ some k))))
  exchange_completes {j} {n} r = elim (dec_lt j 4) [
    | yes h ↦ inr (h, can_go j n h (Run-stage r).1)
    | no h ↦ inl (done j n h (Run-stage r))
  ]
    where
      can_go :
          (j : ℕ) (n : Net)
          → j < 4
          → n ≡ stage j
          → (k : Net) × ((step_a n ≡ some k) ⊎ (step_b n ≡ some k))
      can_go j n h e = (stage (suc j), ground (arith, stage-Next j h))

      done : (j : ℕ) (n : Net) → ¬ (j < 4) → (j ≤ 4) × (n ≡ stage j) → (j ≡ 4) × (n ≡ finished x y)
      done j n h (le, e) = let four : j ≡ 4 = omega arith in (four, e ∙ ap stage four)
