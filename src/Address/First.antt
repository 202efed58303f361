-- ===== src/Address/First.antt =====
-- Which interface's address is taken.
use ucx_py.Prelude.{
  ◌≡◌, refl, ap, sym, ◌∙◌, Option, none, some, true, List, [], ◌∷◌, ◌++◌, All, arith, inl, inr, ◌⊎◌,
}
use ucx_py.Exceptions.{Exn, Result, ok, err}
use ucx_py.Core.Context.Config.{Str}
use ucx_py.Address.{
  sort, with_prefix, prefix_priority, try_each, try_prefixes, get_address, is_os_error, attempt,
  otherwise,
}

-- All interfaces in the order of their prefixes, and by name within one prefix.
pub ranked : List Str → List Str → List Str
ranked names [] = []
ranked names (p ∷ ps) = sort (with_prefix p names) ++ ranked names ps

attempt-otherwise :
    (r : Result Str) (x y : Result (Option Str))
    → attempt r (otherwise x y) ≡ otherwise (attempt r x) y
unfolding attempt otherwise
attempt-otherwise (ok a) x y = refl
attempt-otherwise (err e) x y = ground arith

os_error_only : (x : Exn) → is_os_error x ≡ true → x ≡ Exn.os_error
unfolding is_os_error
os_error_only x h = ground arith

attempt_cases :
    (r : Result Str) (rest : Result (Option Str)) (a : Str)
    → attempt r rest ≡ ok (some a)
    → (r ≡ ok a) ⊎ ((r ≡ err Exn.os_error) × (rest ≡ ok (some a)))
unfolding attempt
attempt_cases (ok b) rest a e = ground arith
attempt_cases (err x) rest a e = ground (arith, os_error_only x)

module _ (address : Str → Result Str) where
  abbrev Fails : Str → Type 0
  Fails i = address i ≡ err Exn.os_error

  -- The first interface of the list whose address can be read has it.
  abbrev pub FirstOf : List Str → Str → Type 0
  FirstOf all a =
      (before : List Str) × (i : Str) × (after : List Str) × (all ≡ before ++ i ∷ after)
      × All Fails before
      × (address i ≡ ok a)

  try_append :
      (xs ys : List Str)
      → try_each address (xs ++ ys) ≡ otherwise (try_each address xs) (try_each address ys)
  unfolding try_each otherwise attempt
  try_append [] ys = refl
  try_append (x ∷ xs) ys =
      ap (attempt (address x)) (try_append xs ys)
      ∙ attempt-otherwise (address x) (try_each address xs) (try_each address ys)

  try_ranked :
      (names ps : List Str) → try_prefixes address names ps ≡ try_each address (ranked names ps)
  unfolding try_prefixes try_each ranked
  try_ranked names [] = refl
  try_ranked names (p ∷ ps) =
      ap (otherwise (try_each address (sort (with_prefix p names)))) (try_ranked names ps)
      ∙ sym (try_append (sort (with_prefix p names)) (ranked names ps))

  try_first : (all : List Str) (a : Str) → try_each address all ≡ ok (some a) → FirstOf all a
  unfolding try_each
  try_first [] a e = absurd (ground arith)
  try_first (i ∷ is) a e = elim (attempt_cases (address i) (try_each address is) a e) [
    | inl here_ ↦ ([], i, is, refl, tt, here_)
    | inr (fails, there) ↦
        (let (before, j, after, split, failing, found) = try_first is a there in
          (i ∷ before, j, after, ap (◌∷◌ i) split, (fails, failing), found))
  ]

  -- Without a name, from the caller or in UCXPY_IFNAME, an address that `get_address` returns is
  -- that of the first interface that has one, "ib" before "eth" before "en", and by name among
  -- those; the query of each one before it raised OSError.
  pub get_address_first :
      (names : List Str) (a : Str)
      → get_address address none none names ≡ ok (some a)
      → FirstOf (ranked names prefix_priority) a
  unfolding get_address
  get_address_first names a e =
      try_first (ranked names prefix_priority) a (sym (try_ranked names prefix_priority) ∙ e)
