-- ===== src/Progress/Life.antt =====
-- How long a progress task of ucp/continuous_ucx_progress.py lives: who holds a reference to it, and when
-- its `__del__` and its finalizers run. An object goes when nobody refers to it.
use ucx_py.Prelude.{
  ◌≡◌, refl, Bool, true, false, not, ◌||◌, List, [], ◌∷◌, if◌then◌else◌, arith, ◌∙◌, Option, none,
  some,
}
use ucx_py.Exceptions.{ok, err}
use ucx_py.Progress.{fd_reader_callback}

pub data Mode : Type 0 where
  non_blocking blocking : Mode

-- `held`: the context's `progress_tasks` has the task. `reader`: the event loop has a reader for the
-- epoll descriptor, whose callback is a method of the task. `running`: the event loop runs a coroutine
-- that is a method of the task, the last `asyncio_task`.
pub record Life : Type 0 where
  pub held : Bool
  pub reader : Bool
  pub asyncio_task : Option Bool
  pub collected : Bool

abbrev pub running : Life → Bool
running l = elim l.asyncio_task [ none ↦ false | some task_done ↦ not task_done ]

-- `__init__` of NonBlockingMode and of BlockingMode.
unfoldable pub make : Mode → Life
make non_blocking = record {
  held = true;
  reader = false;
  asyncio_task = some false;
  collected = false;
}
make blocking = record { held = true; reader = true; asyncio_task = none; collected = false }

-- `__del__` cancels the coroutine, and the finalizers remove the reader.
unfoldable pub finalize : Life → Life
finalize l = record l { reader = false; asyncio_task = none; collected = true }

-- Python's reference counting: a task to which nothing refers any more is finalized.
unfoldable pub collect : Life → Life
unfolding finalize
collect l = if l.held || l.reader || running l then l else finalize l

-- The context lets go of the task; the epoll descriptor becomes ready, with the worker there or not;
-- the coroutine comes to its end.
pub data Event : Type 0 where
  let_go : Event
  fd_ready : Bool → Event
  task_ends : Event

fd_event : Bool → Life → Life
fd_event alive l = elim (fd_reader_callback alive (l.asyncio_task)) [
  | err x ↦ l
  | ok (acts, made) ↦ if made then record l { asyncio_task = some false } else l
]

act : Event → Life → Life
unfolding fd_event
act let_go l = record l { held = false }
act (fd_ready alive) l = if l.reader then fd_event alive l else l
act task_ends l = elim l.asyncio_task [
  | none ↦ l
  | some task_done ↦ record l { asyncio_task = some true }
]

unfoldable pub live : List Event → Life → Life
unfolding act
live [] l = l
live (ev ∷ evs) l = live evs (collect (act ev l))

act-reader : (ev : Event) (l : Life) → (act ev l).reader ≡ l.reader
unfolding act fd_event fd_reader_callback
act-reader ev l = ground arith

act-collected : (ev : Event) (l : Life) → (act ev l).collected ≡ l.collected
unfolding act fd_event fd_reader_callback
act-collected ev l = ground arith

collect-reader :
    (l : Life)
    → l.reader ≡ true
    → l.collected ≡ false
    → ((collect l).reader ≡ true) × ((collect l).collected ≡ false)
unfolding collect
collect-reader l h h' = ground arith

live-reader :
    (evs : List Event) (l : Life)
    → l.reader ≡ true
    → l.collected ≡ false
    → ((live evs l).reader ≡ true) × ((live evs l).collected ≡ false)
unfolding live
live-reader [] l h h' = (h, h')
live-reader (ev ∷ evs) l h h' =
    let (r, c) = collect-reader (act ev l) (act-reader ev l ∙ h) (act-collected ev l ∙ h') in
    live-reader evs (collect (act ev l)) r c

-- A task without reader goes when nobody holds it and its coroutine is done.
abbrev IsKept : Life → Type 0
IsKept l = (l.reader ≡ false) × (l.collected ≡ not (l.held || running l))

collect-IsKept : (ev : Event) (l : Life) → IsKept l → IsKept (collect (act ev l))
unfolding collect finalize act fd_event
collect-IsKept ev l h = ground arith

live-IsKept : (evs : List Event) (l : Life) → IsKept l → IsKept (live evs l)
unfolding live
live-IsKept [] l h = h
live-IsKept (ev ∷ evs) l h = live-IsKept evs (collect (act ev l)) (collect-IsKept ev l h)

-- Whatever the order in which the context lets a task go, the descriptor becomes ready and
-- coroutines end: a task of the blocking mode keeps its reader and is never collected, and one of
-- the other mode is collected exactly when it has been let go and its coroutine has ended.
pub live_lem :
    (evs : List Event)
    → (let l = live evs (make blocking) in (l.reader ≡ true) × (l.collected ≡ false))
      × (let l = live evs (make non_blocking) in l.collected ≡ not (l.held || running l))
unfolding make
live_lem evs = (
  live-reader evs (make blocking) refl refl,
  (live-IsKept evs (make non_blocking) (refl, refl)).1,
)
