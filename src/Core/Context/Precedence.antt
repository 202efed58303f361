-- ===== src/Core/Context/Precedence.antt =====
-- What `env_takes_precedence` takes away.
use ucx_py.Prelude.{
  ◌≡◌, refl, ap, Bool, true, false, none, List, [], ◌∷◌, arith, inl, inr, Bool-cases, if◌then◌else◌,
  ◌||◌,
}
use ucx_py.Core.Context.Config.{Options, Str, option, drop_options, del_option, eq_str}

eq_str_refl : (s : Str) → eq_str s s ≡ true
unfolding eq_str
eq_str_refl [] = refl
eq_str_refl (a ∷ s) = ground (arith, eq_str_refl s)

eq_str-eq : (s t : Str) → eq_str s t ≡ true → s ≡ t
unfolding eq_str
eq_str-eq [] [] h = refl
eq_str-eq [] (b ∷ t) h = ground arith
eq_str-eq (a ∷ s) [] h = ground arith
eq_str-eq (a ∷ s) (b ∷ t) h = ground (arith, eq_str-eq s t)

-- A dict has each name once.
abbrev pub IsDict : Options → Type 0
IsDict [] = Unit
IsDict ((k, v) ∷ d) = (option k d ≡ none) × IsDict d

unfoldable pub member : Str → List Str → Bool
unfolding eq_str
member k [] = false
member k (j ∷ js) = eq_str k j || member k js

eq_str_trans : (i j k : Str) → eq_str j i ≡ true → eq_str j k ≡ true → eq_str k i ≡ true
eq_str_trans i j k h e = rw (← eq_str-eq j k e) h

absent : (i j : Str) (d : Options) → option i d ≡ none → eq_str j i ≡ true → option j d ≡ none
absent i j d h e = rw (eq_str-eq j i e) h

option-del :
    (j k : Str) (d : Options)
    → IsDict d
    → option j (del_option k d) ≡ (if eq_str j k then none else option j d)
unfolding option del_option
option-del j k [] h = ground arith
option-del j k ((i, v) ∷ d) h = elim (Bool-cases (eq_str k i)) [
  | inl hit ↦ rw hit (ground (arith, absent i j d h.0, ap (eq_str j) (eq_str-eq k i hit)))
  | inr miss ↦ rw miss (ground (arith, option-del j k d h.1, eq_str_trans i j k))
]

del-IsDict : (k : Str) (d : Options) → IsDict d → IsDict (del_option k d)
unfolding del_option
del-IsDict k [] h = tt
del-IsDict k ((i, v) ∷ d) h = ground (arith, del-IsDict k d h.1, option-del i k d h.1)

-- With `env_takes_precedence` the options that go on to UCX, from a dict with each name once, are
-- those whose name is not, as it stands, the name of an environment variable, with the values that
-- were given.
pub drop_options_lem :
    (env : List Str) (k : Str) (d : Options)
    → IsDict d
    → option k (drop_options env d) ≡ (if member k env then none else option k d)
unfolding drop_options member
drop_options_lem [] k d h = refl
drop_options_lem (j ∷ env) k d h =
    ground (arith, drop_options_lem env k (del_option j d) (del-IsDict j d h), option-del k j d h)
