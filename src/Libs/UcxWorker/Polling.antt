-- ===== src/Libs/UcxWorker/Polling.antt =====
-- The calls of UCXWorker (ucp/_libs/ucx_worker.pyx) that poll UCX: `progress`, `tag_probe`, `fence` and
-- `flush`, and `handle` and `info`, over what UCX does to the worker's state.
use ucx_py.Prelude.{
  ap, ltb→lt, ℕ, zero, suc, ◌<◌, ◌≤◌, ◌^◌, ◌≡◌, ◌≢◌, refl, Bool, true, false, Option, none, some,
  List, [], ◌∷◌, ◌==◌, ltb, if◌then◌else◌, arith, member, Bool-cases, inl, inr, ◌||◌, All,
}
use ucx_py.Prelude.Bits.{ones, bit_and-ones}
use ucx_py.Prelude.Int.{ℤ, pos}
use Prim.Native.Nat.{bit_and}
use ucx_py.Exceptions.{Exn, Result, ok, err, ◌>>=◌}
use ucx_py.Libs.Ucs.{UcsStatus, assert_ucs_status}
use ucx_py.Libs.Transfer.{send}
use ucx_py.Libs.Transfer.Answers.{Course, Trace, transfer}
use ucx_py.Libs.Rma.{to_word}

-- `handle`, for an initialized worker or context.
unfoldable pub handle : Bool → ℕ → Result ℕ
handle initialized h = if initialized then ok h else err Exn.assertion_error

-- `fence`, with the status of `ucp_worker_fence`, which it returns.
unfoldable pub fence : UcsStatus → Result UcsStatus
fence status = assert_ucs_status status >>= λ _. ok status

-- `flush`, over the course that `ucp_worker_flush_nb` takes.
unfoldable pub flush : ℕ → Course → Trace
flush counter course = transfer send 0 counter course

module _ {W : Type 0} (ucp_worker_progress : W → ℕ × W) where
  -- The loop of `progress`; `none` is that it runs on.
  unfoldable pub poll : ℕ → W → Option W
  poll zero w = none
  poll (suc fuel) w =
      let (count, w') = ucp_worker_progress w in
      let rest = poll fuel w' in if count == 0 then some w' else rest

  unfoldable pub progress : Bool → ℕ → W → Result (Option W)
  progress initialized fuel w = if initialized then ok (poll fuel w) else err Exn.assertion_error

  -- There are so many events that UCX works off at most: a call that reports some leaves fewer.
  abbrev pub WorksOff : (W → ℕ) → Type 0
  WorksOff events =
      (w : W) → (ucp_worker_progress w).0 ≢ 0 → events (ucp_worker_progress w).1 < events w

  -- The worker after so many calls.
  abbrev pub after : ℕ → W → W
  after zero w = w
  after (suc k) w = after k (ucp_worker_progress w).1

  poll-ends :
      (events : W → ℕ)
      → WorksOff events
      → (fuel : ℕ) (w : W) → events w < fuel
      → (k : ℕ) × (poll fuel w ≡ some (after (suc k) w))
        × ((ucp_worker_progress (after k w)).0 ≡ 0)
        × (k ≤ events w)
  unfolding poll
  poll-ends events off zero w h = absurd (omega (arith, h))
  poll-ends events off (suc fuel) w h = elim (Bool-cases ((ucp_worker_progress w).0 == 0)) [
    | inl done ↦ (0, rw (poll, done) refl, ground (arith, done), omega arith)
    | inr more ↦
        (let less = off w (λ e. ground (arith, e, more)) in
          let (k, ends, idle, few) =
            poll-ends events off fuel (ucp_worker_progress w).1 (omega (arith, less, h)) in
          (suc k, rw (poll, more) ends, idle, omega (arith, few, less)))
  ]

  -- Where each call of UCX that reports progress leaves fewer events to work off, the loop of
  -- `progress` ends: with the first call that reports none, and after at most as many calls that
  -- report some as there are events.
  pub progress-ends :
      (events : W → ℕ)
      → WorksOff events
      → (w : W)
      → (k : ℕ) × (progress true (suc (events w)) w ≡ ok (some (after (suc k) w)))
        × ((ucp_worker_progress (after k w)).0 ≡ 0)
        × (k ≤ events w)
  unfolding progress
  progress-ends events off w =
      let (k, ends, idle, few) = poll-ends events off (suc (events w)) w (omega arith) in
      (k, ap ok ends, idle, few)

abbrev pub agrees : ℕ → ℕ → List ℕ → Bool
agrees mask t [] = false
agrees mask t (x ∷ xs) = bit_and x mask == bit_and t mask || agrees mask t xs

-- `ucp_tag_probe_nb` on a tag, a mask and whether the message is taken out: was one found?
module _ {W : Type 0} (ucp_tag_probe_nb : ℕ → ℕ → Bool → W → Bool × W) where
  -- The mask is -1 as a tag of 64 bits.
  unfoldable pub tag_probe : ℤ → W → Result Bool × W
  tag_probe tag w = elim (to_word tag) [
    | err x ↦ (err x, w)
    | ok t ↦ let (found, w') = ucp_tag_probe_nb t (ones 64) false w in (ok found, w')
  ]

  -- UCX looks among the unexpected messages for a tag that agrees on the mask's digits.
  abbrev pub Probes : (W → List ℕ) → Type 0
  Probes unexpected =
      (t mask : ℕ) (w : W) → ucp_tag_probe_nb t mask false w ≡ (agrees mask t (unexpected w), w)

  agrees-member :
      (t : ℕ) (tags : List ℕ)
      → t < 2 ^ 64
      → All (λ x. x < 2 ^ 64) tags
      → agrees (ones 64) t tags ≡ member t tags
  agrees-member t [] h g = refl
  agrees-member t (x ∷ xs) h (g, gs) =
      rw (bit_and-ones 64 t h, bit_and-ones 64 x g, agrees-member t xs h gs) (ground arith)

  -- Where UCX compares a tag with those of its unexpected messages on the digits of the mask, which
  -- all have 64 bits, `tag_probe` of a tag of 64 bits says whether a message with that very tag is
  -- there, and leaves the messages as they are; a larger number raises OverflowError.
  pub tag_probe-member :
      (unexpected : W → List ℕ)
      → Probes unexpected
      → (w : W) → All (λ x. x < 2 ^ 64) (unexpected w)
      → (t : ℕ)
      → tag_probe (pos t) w
        ≡ (if ltb t (2 ^ 64) then ok (member t (unexpected w)) else err Exn.overflow_error, w)
  unfolding tag_probe to_word
  tag_probe-member unexpected probes w g t = elim (Bool-cases (ltb t (2 ^ 64))) [
    | inl small ↦
        rw
          (
            tag_probe,
            to_word,
            small,
            probes t (ones 64) w,
            agrees-member t (unexpected w) (ltb→lt t (2 ^ 64) small) g,
          )
          refl
    | inr large ↦ rw (tag_probe, to_word, large) refl
  ]
