-- ===== src/Benchmarks/SendRecv/Balance.antt =====
-- What an operation of the client does to the counters.
use ucx_py.Prelude.{
  ◌∙◌, All-append, ap, ap₂, ℕ, suc, ◌+◌, ◌<◌, ◌≤◌, ◌^◌, ◌≡◌, refl, Bool, true, false, Option, none,
  some, List, [], ◌∷◌, ◌++◌, length, All, arith, length-append,
}
use ucx_py.Prelude.Int.{inc-sub_nat, sub_nat-suc, dec-sub_nat, sub_nat}
use ucx_py.Exceptions.{Exn, ok}
use ucx_py.Libs.Transfer.{verdict}
use ucx_py.Libs.Transfer.Answers.{
  Course, at_once, refused, early, late, answered, transfer-answered,
}
use ucx_py.Benchmarks.SendRecv.{
  Counters, Op, State, new, non_blocking, by_return, op_started, op_completed, handler_calls,
  non_blocking_handler,
}

abbrev pub is_none : Option Exn → Bool
is_none none = true
is_none (some x) = false

-- UCX takes the operation, and ends it well.
abbrev pub ends_well : Op → Bool
ends_well o = elim o.course [
  | at_once ↦ true
  | refused ↦ false
  | early status n ↦ true
  | late status n ↦ is_none (verdict o.kind status n o.nbytes)
]

-- The operations whose callback is called before their function returns.
abbrev pub is_early : Course → ℕ
is_early (early status n) = 1
is_early _ = 0

abbrev pub taken : Course → Bool
taken refused = false
taken _ = true

unfoldable pub earlies : List Op → ℕ
earlies [] = 0
earlies (o ∷ os) = is_early o.course + earlies os

abbrev pub Good : Op → Type 0
Good o = (o.counter + 1 < 2 ^ 32) × (ends_well o ≡ true)

-- After `started` operations, of which `e` were counted twice.
pub record Inv (started e : ℕ) (c : Counters) (pending : List (Option Exn)) : Type 0 where
  pub balance : c.outstanding ≡ sub_nat (length pending) e
  pub total : c.finished + length pending ≡ started + e
  pub well : All (λ x. x ≡ none) pending

pub Inv-start : Inv 0 0 new []
Inv-start = record { balance = refl; total = refl; well = tt }

-- One completion.
pub Inv-handler :
    (n e : ℕ) (x : Option Exn) (xs : List (Option Exn)) (c : Counters)
    → Inv n e c (x ∷ xs)
    → Inv n e (non_blocking_handler x c) xs
unfolding non_blocking_handler op_completed
Inv-handler n e (some x) xs c i = absurd (ground (arith, i.well.0))
Inv-handler n e none xs c i = record {
  balance = rw (i.balance, dec-sub_nat, sub_nat-suc);
  total = omega (arith, i.total);
  well = i.well.1;
}

-- The operation is counted, is answered at once, twice or later.
unfoldable pub posted : Course → State → State
posted at_once s = record s { counters = op_completed (op_started s.counters) }
posted refused s = s
posted (early status n) s = record s {
  counters = op_completed (op_completed (op_started s.counters));
}
posted (late status n) s = record {
  counters = op_started s.counters;
  pending = s.pending ++ none ∷ [];
}

from_is_none : (x : Option Exn) → is_none x ≡ true → x ≡ none
from_is_none none h = refl
from_is_none (some x) h = absurd (ground arith)

pub by_course :
    (o : Op) (course : Course) (s : State)
    → o.course ≡ course
    → Good o
    → non_blocking o s ≡ ok (posted o.course s)
unfolding posted non_blocking by_return answered handler_calls non_blocking_handler
by_course o at_once s e (bound, w) =
    rw
      (
        non_blocking,
        transfer-answered o.kind o.nbytes o.counter o.course bound,
        e,
        op_completed,
        op_started,
      )
      refl
by_course o refused s e (bound, w) = absurd (ground (arith, e, w))
by_course o (early status n) s e (bound, w) =
    rw
      (
        non_blocking,
        transfer-answered o.kind o.nbytes o.counter o.course bound,
        e,
        op_completed,
        op_started,
      )
      refl
by_course o (late status n) s e (bound, w) =
    let v : verdict o.kind status n o.nbytes ≡ none = from_is_none _ (ground (arith, e, w)) in
    rw (non_blocking, transfer-answered o.kind o.nbytes o.counter o.course bound, e, v, op_started)
      refl

pub posted-Inv :
    (n e : ℕ) (course : Course) (s : State)
    → taken course ≡ true
    → Inv n e s.counters s.pending
    → let s' = posted course s in
      Inv (suc n) (is_early course + e) s'.counters s'.pending
      × (length s'.pending ≤ suc (length s.pending))
unfolding posted op_started op_completed
posted-Inv n e at_once s h i = (
  record {
    balance = rw (i.balance, inc-sub_nat, dec-sub_nat, sub_nat-suc) (ap (sub_nat _) (omega arith));
    total = omega (arith, i.total);
    well = i.well;
  },
  omega arith,
)
posted-Inv n e refused s h i = absurd (ground (arith, h))
posted-Inv n e (early status k) s h i = (
  record {
    balance =
        rw (i.balance, inc-sub_nat, dec-sub_nat, sub_nat-suc, dec-sub_nat)
          (ap (sub_nat _) (omega arith));
    total = omega (arith, i.total);
    well = i.well;
  },
  omega arith,
)
posted-Inv n e (late status k) s h i = (
  record {
    balance = rw (i.balance, inc-sub_nat, length-append) (ap₂ sub_nat (omega arith) (omega arith));
    total = rw length-append (omega (arith, i.total));
    well = All-append (λ x. x ≡ none) s.pending (none ∷ []) i.well (refl, tt);
  },
  rw length-append (omega arith),
)

pub Good-taken : (o : Op) → Good o → taken o.course ≡ true
Good-taken o (bound, w) = ground arith

pub Inv-cast :
    {n m e f : ℕ} {c : Counters} {xs : List (Option Exn)}
    → n ≡ m
    → e ≡ f
    → Inv n e c xs
    → Inv m f c xs
Inv-cast p q i = record {
  balance = i.balance ∙ ap (sub_nat _) q;
  total = omega (arith, i.total, p, q);
  well = i.well;
}
