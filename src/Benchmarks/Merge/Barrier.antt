-- ===== src/Benchmarks/Merge/Barrier.antt =====
-- `barrier` of benchmarks/cudf-merge.py, run by all workers: rank 0 receives a message of one byte from
-- each other worker, which goes on as soon as its message is sent.
use ucx_py.Prelude.{
  ℕ, suc, ◌≡◌, refl, Bool, true, false, ◌&&◌, List, [], ◌∷◌, ◌==◌, if◌then◌else◌, All, arith,
}

-- Where a worker stands: before its call, at the await of its call, after it.
pub data Phase : Type 0 where
  before inside past : Phase

abbrev pub is_before : Phase → Bool
is_before before = true
is_before inside = false
is_before past = false

abbrev pub is_past : Phase → Bool
is_past before = false
is_past inside = false
is_past past = true

-- Each worker's phase, and whether its message has been sent.
pub record State : Type 0 where
  pub phase : ℕ → Phase
  pub sent : ℕ → Bool

abbrev pub start : State
start = record { phase = λ r. before; sent = λ r. false }

pub data Move : Type 0 where
  enter : ℕ → Move
  finish : ℕ → Move

set_phase : ℕ → Phase → State → State
set_phase rank p s = record s { phase = λ r. if r == rank then p else s.phase r }

-- `barrier` up to its await, and from there on.
unfoldable pub barrier : Move → State → State
unfolding set_phase
barrier (enter rank) s =
    let s' = set_phase rank inside s in
    if rank == 0 then s' else record s' { sent = λ r. if r == rank then true else s.sent r }
barrier (finish rank) s = set_phase rank past s

-- `peers` are the keys of rank 0's endpoints: its `gather` ends with the last of their messages.
unfoldable pub gathered : List ℕ → (ℕ → Bool) → Bool
gathered [] sent = true
gathered (r ∷ peers) sent = sent r && gathered peers sent

module _ (peers : List ℕ) where
  abbrev pub CanMove : Move → State → Type 0
  CanMove (enter rank) s = s.phase rank ≡ before
  CanMove (finish rank) s =
      (s.phase rank ≡ inside) × ((if rank == 0 then gathered peers s.sent else true) ≡ true)

  pub data Reach : State → Type 0 where
    here : Reach start
    next : {s : State} → Reach s → (m : Move) → CanMove m s → Reach (barrier m s)

  -- Who has sent has come to the barrier, and rank 0 passes it after all have sent.
  pub record Inv (s : State) : Type 0 where
    pub come : (r : ℕ) → s.sent r ≡ true → is_before (s.phase r) ≡ false
    pub last : is_past (s.phase 0) ≡ true → gathered peers s.sent ≡ true

gathered-keeps :
    (peers : List ℕ) (f g : ℕ → Bool)
    → ((r : ℕ) → f r ≡ true → g r ≡ true)
    → gathered peers f ≡ true
    → gathered peers g ≡ true
unfolding gathered
gathered-keeps [] f g h k = refl
gathered-keeps (r ∷ peers) f g h k = ground (arith, h r, gathered-keeps peers f g h)

module _ (peers : List ℕ) where
  sent-keeps : (m : Move) (s : State) (r : ℕ) → s.sent r ≡ true → (barrier m s).sent r ≡ true
  unfolding barrier set_phase
  sent-keeps (enter rank) s r h = ground arith
  sent-keeps (finish rank) s r h = h

  barrier-come :
      (m : Move) (s : State)
      → Inv peers s
      → CanMove peers m s
      → (r : ℕ) → (barrier m s).sent r ≡ true
      → is_before ((barrier m s).phase r) ≡ false
  unfolding barrier set_phase
  barrier-come (enter rank) s i can r h = ground (arith, i.come r)
  barrier-come (finish rank) s i can r h = ground (arith, i.come r)

  barrier-last :
      (m : Move) (s : State)
      → Inv peers s
      → CanMove peers m s
      → is_past ((barrier m s).phase 0) ≡ true
      → gathered peers s.sent ≡ true
  unfolding barrier set_phase
  barrier-last (enter rank) s i can h = ground (arith, i.last)
  barrier-last (finish rank) s i (can, all_) h = ground (arith, i.last)

  Reach-Inv : (s : State) → Reach peers s → Inv peers s
  Reach-Inv s here = record { come = λ r h. ground arith; last = λ h. ground arith }
  Reach-Inv s (next r m can) =
      let i = Reach-Inv _ r in
      record {
        come = barrier-come m _ i can;
        last = λ h. gathered-keeps peers _ _ (sent-keeps m _) (barrier-last m _ i can h);
      }

  gathered-All :
      (ranks : List ℕ) (s : State)
      → Inv peers s
      → gathered ranks s.sent ≡ true
      → All (λ r. is_before (s.phase r) ≡ false) ranks
  unfolding gathered
  gathered-All [] s i h = tt
  gathered-All (r ∷ ranks) s i h = (i.come r (ground arith), gathered-All ranks s i (ground arith))

  -- When rank 0 has passed the barrier, all its peers have come to it.
  pub barrier-last_come :
      (s : State)
      → Reach peers s
      → is_past (s.phase 0) ≡ true
      → All (λ r. is_before (s.phase r) ≡ false) peers
  barrier-last_come s r h = let i = Reach-Inv s r in gathered-All peers s i (i.last h)

  -- Each other rank can pass before rank 0 has come.
  pub barrier_early :
      (k : ℕ) → (s : State) × Reach peers s × (s.phase (suc k) ≡ past) × (s.phase 0 ≡ before)
  unfolding barrier set_phase
  barrier_early k = (
    barrier (finish (suc k)) (barrier (enter (suc k)) start),
    next (next here (enter (suc k)) refl) (finish (suc k)) (ground arith, ground arith),
    ground arith,
    ground arith,
  )
