-- ===== src/Network/Meeting.antt =====
-- What holds while the workers connect.
use ucx_py.Prelude.{ℕ, ◌+◌, ◌≤◌, ◌<◌, ◌≡◌, refl, true, false, arith, ltb, if◌then◌else◌}
use ucx_py.Exceptions.{ok, is_ok}
use ucx_py.Network.{Mesh, start, Event, dial, connected, accepted, step, can, Reach, here, then_}

-- Worker r has a higher rank k exactly when its loop has passed it, and then k has r, or the message
-- is under way, one message; nothing goes to a rank that is not higher.
pub record Orderly (n : ℕ) (m : Mesh) : Type 0 where
  pub dialed : (r : ℕ) → r < n → m.dialing r ≡ true → m.next r < n
  pub passed : (r : ℕ) → r < m.next r
  pub calls : (r k : ℕ) → r < k → m.has r k ≡ ltb k (m.next r)
  pub called :
      (r k : ℕ)
      → r < k
      → m.under_way r k + (if m.has k r then 1 else 0) ≡ (if ltb k (m.next r) then 1 else 0)
  pub upward : (r k : ℕ) → k ≤ r → m.under_way r k ≡ 0
  pub no_loop : (r : ℕ) → m.has r r ≡ false
  pub outside : (r : ℕ) → n ≤ r → m.next r ≡ r + 1

start-Orderly : (n : ℕ) → Orderly n start
unfolding start
start-Orderly n = record {
  dialed = λ r h e. ground arith;
  passed = λ r. omega arith;
  calls = λ r k h. ground arith;
  called = λ r k h. ground arith;
  upward = λ r k h. refl;
  no_loop = λ r. refl;
  outside = λ r h. refl;
}

dial-Orderly :
    (n r : ℕ) (m : Mesh) {l : Mesh}
    → Orderly n m
    → can n (dial r) m ≡ true
    → step (dial r) m ≡ ok l
    → Orderly n l
unfolding can step
dial-Orderly n r m v h e = record {
  dialed = λ x b d. ground (arith, v.dialed x b);
  passed = λ x. ground (arith, v.passed x);
  calls = λ x k b. ground (arith, v.calls x k b);
  called = λ x k b. ground (arith, v.called x k b);
  upward = λ x k b. ground (arith, v.upward x k b);
  no_loop = λ x. ground (arith, v.no_loop x);
  outside = λ x b. ground (arith, v.outside x b);
}

connected-Orderly :
    (n r : ℕ) (m : Mesh) {l : Mesh}
    → Orderly n m
    → can n (connected r) m ≡ true
    → step (connected r) m ≡ ok l
    → Orderly n l
unfolding can step
connected-Orderly n r m v h e = record {
  dialed = λ x b d. ground (arith, v.dialed x b);
  passed = λ x. ground (arith, v.passed x);
  calls = λ x k b. ground (arith, v.calls x k b, v.passed x);
  called = λ x k b. ground (arith, v.called x k b, v.passed x, v.passed k);
  upward = λ x k b. ground (arith, v.upward x k b, v.passed x);
  no_loop = λ x. ground (arith, v.no_loop x, v.passed x);
  outside = λ x b. ground (arith, v.outside x b);
}

accepted-Orderly :
    (n j r : ℕ) (m : Mesh) {l : Mesh}
    → Orderly n m
    → can n (accepted j r) m ≡ true
    → step (accepted j r) m ≡ ok l
    → Orderly n l
unfolding can step
accepted-Orderly n j r m v h e = record {
  dialed = λ x b d. ground (arith, v.dialed x b);
  passed = λ x. ground (arith, v.passed x);
  calls = λ x k b. ground (arith, v.calls x k b, v.upward r j);
  called = λ x k b. ground (arith, v.called x k b);
  upward = λ x k b. ground (arith, v.upward x k b);
  no_loop = λ x. ground (arith, v.no_loop x, v.upward r j);
  outside = λ x b. ground (arith, v.outside x b);
}

pub Reach-Orderly : (n : ℕ) {m : Mesh} → Reach n m → Orderly n m
Reach-Orderly n here = start-Orderly n
Reach-Orderly n (then_ {m} r (dial x) h e) = dial-Orderly n x m (Reach-Orderly n r) h e
Reach-Orderly n (then_ {m} r (connected x) h e) = connected-Orderly n x m (Reach-Orderly n r) h e
Reach-Orderly n (then_ {m} r (accepted j x) h e) = accepted-Orderly n j x m (Reach-Orderly n r) h e

-- However the connections of n workers interleave, no assertion fails.
pub step-can :
    (n : ℕ) {m : Mesh} (ev : Event) → Reach n m → can n ev m ≡ true → is_ok (step ev m) ≡ true
unfolding can step
step-can n {m} (dial r) reached h =
    let v = Reach-Orderly n reached in ground (arith, v.calls r (m.next r) (v.passed r))
step-can n {m} (connected r) reached h = refl
step-can n {m} (accepted k r) reached h =
    let v = Reach-Orderly n reached in ground (arith, v.called r k, v.upward r k)
