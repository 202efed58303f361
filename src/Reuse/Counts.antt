-- ===== src/Reuse/Counts.antt =====
-- The reference counts over a connection.
use ucx_py.Prelude.{
  ℕ, zero, suc, ◌≡◌, ◌≢◌, ◌⊎◌, refl, ap, ◌∙◌, true, false, Option, none, some, List, [], ◌∷◌, All,
  arith, ◌==◌, lookup, insert, contains,
}
use ucx_py.Prelude.Int.{ℤ, pos, negsuc, inc, dec, is_zero}
use ucx_py.Exceptions.{ok}
use ucx_py.Reuse.{
  EpHandle, Existing, modify_at, hold, hold_all, keys, let_go, let_go_all, create_endpoint,
}

-- Each key is registered once.
abbrev pub Distinct : Existing → Type 0
Distinct [] = Unit
Distinct ((k, h) ∷ d) = All (λ j. (j == k) ≡ false) (keys d) × Distinct d

-- An open endpoint has references.
abbrev pub IsLive : EpHandle → Type 0
IsLive h = h.is_open ≡ true → is_zero h.refcount ≡ false

dec-inc : (z : ℤ) → dec (inc z) ≡ z
dec-inc (pos n) = refl
dec-inc (negsuc zero) = refl
dec-inc (negsuc (suc n)) = refl

let_go-hold : (h : EpHandle) → IsLive h → let_go (hold h) ≡ h
let_go-hold h live = ground (arith, dec-inc h.refcount)

let_go_past :
    (ks : List ℕ) (k : ℕ) (h : EpHandle) (d : Existing)
    → All (λ j. (j == k) ≡ false) ks
    → let_go_all ks ((k, h) ∷ d) ≡ (k, h) ∷ let_go_all ks d
unfolding let_go_all
let_go_past [] k h d other = refl
let_go_past (j ∷ ks) k h d other = rw other.0 (let_go_past ks k h (modify_at j let_go d) other.1)

keys-hold_all : (d : Existing) → keys (hold_all d) ≡ keys d
unfolding hold_all
keys-hold_all [] = refl
keys-hold_all ((k, h) ∷ d) = ap (◌∷◌ k) (keys-hold_all d)

let_go_head :
    (k : ℕ) (h : EpHandle) (d : Existing)
    → IsLive h
    → modify_at k let_go ((k, hold h) ∷ d) ≡ (k, h) ∷ d
unfolding modify_at
let_go_head k h d live = ground (arith, let_go-hold h live)

-- What the first loop of `create_endpoint` holds on to, the second one lets go of.
pub let_go_all-hold_all :
    (d : Existing)
    → Distinct d
    → All (λ (entry : ℕ × EpHandle). IsLive entry.1) d
    → let_go_all (keys d) (hold_all d) ≡ d
unfolding let_go_all hold_all
let_go_all-hold_all [] u live = refl
let_go_all-hold_all ((k, h) ∷ d) u live =
    ap (let_go_all (keys d)) (let_go_head k h (hold_all d) live.0)
    ∙ let_go_past (keys d) k h (hold_all d) u.0
    ∙ ap (◌∷◌ (k, h)) (let_go_all-hold_all d u.1 live.1)

module _ (msg_send msg_recv : ℕ) (d : Existing) (u : Distinct d)
    (live : All (λ (entry : ℕ × EpHandle). IsLive entry.1) d) where
  -- Where each key is registered once and every open endpoint has references, and nothing else
  -- changes the registered endpoints or their reference counts while a client waits for the answer:
  -- if it gets the nonzero ID of an existing endpoint, it uses that one, which has one reference
  -- more, and all else is as it was before the call.
  pub create_endpoint_shares :
      (id : ℕ) (h : EpHandle)
      → lookup id d ≡ some h
      → id ≢ 0
      → create_endpoint (keys d) (some id) msg_send msg_recv (hold_all d)
        ≡ (ok id, modify_at id (λ g. record g { refcount = inc g.refcount }) d)
  unfolding create_endpoint
  create_endpoint_shares id h found nonzero = rw (let_go_all-hold_all d u live) (ground arith)

  -- Where each key is registered once and every open endpoint has references, a client that gets no
  -- ID, or 0, registers the new endpoint with one reference, if the tag on which it sends is not
  -- registered; all else is as it was.
  pub create_endpoint_registers :
      (answer : Option ℕ)
      → (answer ≡ none) ⊎ (answer ≡ some 0)
      → contains msg_send d ≡ false
      → create_endpoint (keys d) answer msg_send msg_recv (hold_all d) ≡ (
        ok msg_send,
        insert msg_send (record { is_open = true; refcount = pos 1; msg_recv = msg_recv }) d,
      )
  unfolding create_endpoint
  create_endpoint_registers answer no_match fresh = ground (arith, let_go_all-hold_all d u live)
