-- ===== src/Reuse/Tests.antt =====
-- Two shared endpoints, and the theorems about their reuse at concrete inputs.
use ucx_py.Prelude.{◌≡◌, refl, true, false, some, [], ◌∷◌, arith}
use ucx_py.Prelude.Int.{pos, inc}
use ucx_py.Exceptions.{ok}
use ucx_py.Reuse.{EpHandle, Existing, modify_at, create_endpoint, hold_all, keys, closed}
use ucx_py.Reuse.Counts.{create_endpoint_shares}
use ucx_py.Reuse.Closing.{close_times, closed-close_times}

-- An open endpoint with two references, and a closed one.
abbrev shared : EpHandle
shared = record { is_open = true; refcount = pos 2; msg_recv = 31 }

abbrev shut : EpHandle
shut = record { is_open = false; refcount = pos 0; msg_recv = 32 }

abbrev existing : Existing
existing = (21, shared) ∷ (22, shut) ∷ []

create_endpoint_shares_example :
    create_endpoint (keys existing) (some 21) 41 42 (hold_all existing)
    ≡ (ok 21, modify_at 21 (λ g. record g { refcount = inc g.refcount }) existing)
create_endpoint_shares_example =
    create_endpoint_shares 41 42 existing ((refl, tt), (tt, tt)) ((λ e. refl), ((λ e. cc e), tt)) 21
      shared refl (λ e. omega arith)

closed-close_times_example : closed (some 21) (close_times 2 21 existing) ≡ true
closed-close_times_example = closed-close_times 2 21 1 existing shared refl refl refl
