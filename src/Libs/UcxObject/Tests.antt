-- ===== src/Libs/UcxObject/Tests.antt =====
-- A context with a worker, and the theorems about closing them at concrete inputs.
use ucx_py.Prelude.{◌≡◌, refl, true, false, [], ◌∷◌}
use ucx_py.Exceptions.{ok, is_ok}
use ucx_py.Libs.UcxObject.{
  worker, endpoint, listener, address, alive, dead, Object, object, Children, nil, gone, cons,
  nothing, close, asserts_owner,
}
use ucx_py.Libs.UcxObject.Closing.{tame, tame_all, live, close-live, close_stuck}

-- A worker with a live listener, a collected child, a closed endpoint and an address.
abbrev quiet_worker : Object
quiet_worker = object worker 1 alive (
    cons (object listener 2 alive nil)
      (gone (cons (object endpoint 3 dead nil) (cons (object address 4 alive nil) nil))))

quiet_worker-tame : tame quiet_worker ≡ true
unfolding tame asserts_owner
quiet_worker-tame = refl

close-live_example :
    (close (λ h. ok tt) true quiet_worker).0 ≡ record { freed = 2 ∷ 4 ∷ 1 ∷ []; result = ok tt }
unfolding live
close-live_example = close-live (λ h. ok tt) (λ h. refl) quiet_worker quiet_worker-tame

-- A listener and then an endpoint, both live: the children of a worker.
abbrev busy_children : Children
busy_children = cons (object listener 2 alive nil) (cons (object endpoint 3 alive nil) nil)

busy_children-tame : tame_all busy_children ≡ false
unfolding tame asserts_owner
busy_children-tame = refl

close_stuck_example :
    let (c, y) = close (λ h. ok tt) true (object worker 1 alive busy_children) in
    (is_ok c.result ≡ false) × (c.freed ≡ 2 ∷ []) × (close (λ h. ok tt) true y ≡ (nothing, y))
unfolding close asserts_owner
close_stuck_example = close_stuck (λ h. ok tt) worker 1 busy_children busy_children-tame
