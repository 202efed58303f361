-- ===== src/Core/Context/Lifecycle.antt =====
-- The single context: when it is made, kept and dropped, and its progress tasks.
use ucx_py.Prelude.{
  ℕ, ◌≡◌, ◌||◌, refl, Bool, true, false, Option, none, some, List, [], ◌∷◌, ◌++◌, All, arith, ◌==◌,
}
use ucx_py.Exceptions.{Exn, Result, ok, err}
use ucx_py.Core.Context.Config.{Options}
use ucx_py.Core.Context.{
  Context, World, continuous_ucx_progress, has_task, get_ctx, init_ucx, reset, get_config,
  flush_or_fence,
}

module _ (w : World) where
  get_ctx_state :
      (s : Option Context) {c : Context} → (get_ctx w s).0 ≡ ok c → (get_ctx w s).1 ≡ some c
  unfolding get_ctx
  get_ctx_state none e = ground arith
  get_ctx_state (some c) e = ground arith

  -- A context that `_get_ctx` returns is the one of the module from then on: the next `_get_ctx`
  -- returns it, `init` raises RuntimeError and changes nothing, and `get_config` gives its
  -- configuration.
  pub get_ctx_single :
      (s : Option Context) {c : Context} (o : Options) (b : Bool) (m : Option Bool)
      (r : Result Options)
      → (get_ctx w s).0 ≡ ok c
      → let t = (get_ctx w s).1 in
        (t ≡ some c)
        × (get_ctx w t ≡ (ok c, t))
        × (init_ucx w o b m t ≡ (err Exn.runtime_error, t))
        × (get_config w r t ≡ (ok c.config, t))
  unfolding get_ctx init_ucx get_config
  get_ctx_single s o b m r e = let state = get_ctx_state s e in rw state (refl, refl, refl, refl)

  -- After `reset`, also one that raises since the context is still referenced, UCX can be initiated
  -- anew; and no call of `get_config`, `flush` or `fence` then makes a context.
  pub reset_allows_init :
      (referenced : Bool) (s : Option Context) (o : Options) (b : Bool) (m : Option Bool)
      (r : Result Options) (q : Result (Unit {0}))
      → (init_ucx w o b m (reset w referenced s).1 ≡ init_ucx w o b m none)
        × ((get_config w r (reset w referenced s).1).1 ≡ none)
        × ((flush_or_fence w q (reset w referenced s).1).1 ≡ none)
  unfolding reset get_config flush_or_fence
  reset_allows_init referenced none o b m r q = (refl, refl, refl)
  reset_allows_init referenced (some c) o b m r q = (refl, refl, refl)

-- No loop stands there twice.
abbrev pub Distinct : List ℕ → Type 0
Distinct [] = Unit
Distinct (t ∷ ts) = (has_task t ts ≡ false) × Distinct ts

-- `continuous_ucx_progress` for these event loops, one after the other.
pub guarantee : List ℕ → Context → Context
guarantee [] c = c
guarantee (l ∷ loops) c = guarantee loops (continuous_ucx_progress l c)

has_task-append : (l t : ℕ) (ts : List ℕ) → has_task l (ts ++ t ∷ []) ≡ (has_task l ts || t == l)
unfolding has_task
has_task-append l t [] = ground arith
has_task-append l t (x ∷ ts) = ground (arith, has_task-append l t ts)

Distinct-append :
    (l : ℕ) (ts : List ℕ) → Distinct ts → has_task l ts ≡ false → Distinct (ts ++ l ∷ [])
unfolding has_task
Distinct-append l [] d h = (refl, tt)
Distinct-append l (t ∷ ts) d h = ground (arith, has_task-append t l ts, Distinct-append l ts d.1)

step-Distinct :
    (l : ℕ) (c : Context)
    → Distinct c.progress_tasks
    → Distinct (continuous_ucx_progress l c).progress_tasks
unfolding continuous_ucx_progress
step-Distinct l c d = ground (arith, Distinct-append l c.progress_tasks d)

step-keeps :
    (l k : ℕ) (c : Context)
    → (has_task l (continuous_ucx_progress l c).progress_tasks ≡ true)
      × (has_task k c.progress_tasks ≡ true
          → has_task k (continuous_ucx_progress l c).progress_tasks ≡ true)
unfolding continuous_ucx_progress
step-keeps l k c =
    ground (arith, has_task-append l l c.progress_tasks, has_task-append k l c.progress_tasks)

guarantee-keeps :
    (loops : List ℕ) (k : ℕ) (c : Context)
    → has_task k c.progress_tasks ≡ true
    → has_task k (guarantee loops c).progress_tasks ≡ true
unfolding guarantee
guarantee-keeps [] k c h = h
guarantee-keeps (l ∷ loops) k c h = guarantee-keeps loops k _ ((step-keeps l k c).1 h)

guarantee-Distinct :
    (loops : List ℕ) (c : Context)
    → Distinct c.progress_tasks
    → Distinct (guarantee loops c).progress_tasks
unfolding guarantee
guarantee-Distinct [] c d = d
guarantee-Distinct (l ∷ loops) c d = guarantee-Distinct loops _ (step-Distinct l c d)

guarantee-has :
    (loops : List ℕ) (c : Context)
    → All (λ l. has_task l (guarantee loops c).progress_tasks ≡ true) loops
unfolding guarantee
guarantee-has [] c = tt
guarantee-has (l ∷ loops) c = (
  guarantee-keeps loops l _ (step-keeps l l c).0,
  guarantee-has loops (continuous_ucx_progress l c),
)

-- From a context where no event loop has two tasks, however often progress is guaranteed for event
-- loops, every one of them has a task, and no loop has two.
pub guarantee_once :
    (loops : List ℕ) (c : Context)
    → Distinct c.progress_tasks
    → Distinct (guarantee loops c).progress_tasks
      × All (λ l. has_task l (guarantee loops c).progress_tasks ≡ true) loops
guarantee_once loops c d = (guarantee-Distinct loops c d, guarantee-has loops c)
