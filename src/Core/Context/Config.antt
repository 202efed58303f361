-- ===== src/Core/Context/Config.antt =====
-- UCX options, a dict of names to values, and the names that the environment takes away from it.
use ucx_py.Prelude.{
  ℕ, Bool, true, false, ◌&&◌, Option, none, some, List, [], ◌∷◌, ◌==◌, if◌then◌else◌,
}

-- A text as its code points.
abbrev pub Str : Type 0
Str = List ℕ

abbrev pub Options : Type 0
Options = List (Str × Str)

unfoldable pub eq_str : Str → Str → Bool
eq_str [] [] = true
eq_str (a ∷ s) (b ∷ t) = (a == b) && eq_str s t
eq_str _ _ = false

unfoldable pub option : Str → Options → Option Str
unfolding eq_str
option k [] = none
option k ((j, v) ∷ d) = if eq_str k j then some v else option k d

-- `if k in options: del options[k]`; a dict has a name once.
unfoldable pub del_option : Str → Options → Options
unfolding eq_str
del_option k [] = []
del_option k ((j, v) ∷ d) = if eq_str k j then d else (j, v) ∷ del_option k d

-- The loop over the names of the environment in `init`.
unfoldable pub drop_options : List Str → Options → Options
unfolding del_option
drop_options [] options = options
drop_options (k ∷ env) options = drop_options env (del_option k options)
