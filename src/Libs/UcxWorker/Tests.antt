-- ===== src/Libs/UcxWorker/Tests.antt =====
-- Polling with three events to work off, a probe among two tags, and two messages that nobody received, the
-- second refused, and a request in flight.
use ucx_py.Prelude.Int.{pos}
use ucx_py.Libs.UcxWorker.Polling.{WorksOff, agrees, tag_probe, tag_probe-member}
use ucx_py.Prelude.{ℕ, zero, suc, ◌+◌, ◌^◌, Bool, ◌≡◌, refl, true, false, [], ◌∷◌, List, arith}
use ucx_py.Exceptions.{Exn, ok}
use ucx_py.Libs.Ucs.{UcsStatus}
use ucx_py.Libs.Transfer.Answers.{refused, late}
use ucx_py.Libs.Ucxio.{raised}
use ucx_py.Libs.UcxWorker.{Unreceived, worker_finalizer, worker_finalizer-ends}

abbrev unreceived : List Unreceived
unreceived =
    record { length = 8; counter = 3; course = late UcsStatus.err_canceled 0 }
    ∷ record { length = 4; counter = 4; course = refused }
    ∷ []

worker_finalizer-ends_example :
    worker_finalizer true true unreceived ((9, false) ∷ [])
    ≡ record { outcome = raised Exn.ucx_error; freed = 2; canceled = []; destroyed = false }
worker_finalizer-ends_example =
    worker_finalizer-ends true unreceived ((9, false) ∷ []) (omega arith, (omega arith, tt))
      (refl, tt)

abbrev work_off : ℕ → ℕ × ℕ
work_off zero = (0, zero)
work_off (suc n) = (1, n)

work_off-WorksOff : WorksOff work_off (λ n. n)
work_off-WorksOff zero h = absurd (h refl)
work_off-WorksOff (suc n) h = omega arith

abbrev probe : ℕ → ℕ → Bool → List ℕ → Bool × List ℕ
probe t mask remove tags = (agrees mask t tags, tags)

abbrev tags : List ℕ
tags = 7 ∷ (2 ^ 63 + 7) ∷ []

tag_probe-member_example : tag_probe probe (pos 7) tags ≡ (ok true, tags)
tag_probe-member_example =
    tag_probe-member probe (λ w. w) (λ t mask w. refl) tags (omega arith, (omega arith, tt)) 7
