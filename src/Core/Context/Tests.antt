-- ===== src/Core/Context/Tests.antt =====
-- A context that the first call makes.
use ucx_py.Prelude.{◌≡◌, refl, true, false, none, some, [], ◌∷◌}
use ucx_py.Exceptions.{ok}
use ucx_py.Core.Context.{
  Context, World, has_task, get_ctx, new_context, continuous_ucx_progress, progress_mode,
}

-- The option 7 is 9.
abbrev world : World
world = record {
  ucp_init = λ given. ok ((8 ∷ [], 1 ∷ []) ∷ given);
  env = (7 ∷ []) ∷ [];
  non_blocking_mode = false;
  current_loop = 5;
  version = (1, 11, 0);
  bytearray = 0;
}

abbrev made : Context
made = record {
  config = (8 ∷ [], 1 ∷ []) ∷ [];
  blocking_progress_mode = true;
  progress_tasks = 5 ∷ [];
  am_host_allocator = 0;
  am_cuda_allocator = none;
}

is_made : get_ctx world none ≡ (ok made, some made)
unfolding get_ctx new_context continuous_ucx_progress progress_mode has_task
is_made = refl
