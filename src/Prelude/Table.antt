-- ===== src/Prelude/Table.antt =====
-- A Python dict keyed by numbers, as an association list in insertion order.
use Prim.Native.Nat.{ℕ}
use mathlib.Core.Path.{◌≡◌, refl}
use mathlib.Core.Bool.{Bool, true, false}
use mathlib.Core.List.{List, [], ◌∷◌}
use mathlib.Core.Option.{Option, none, some}
use native.Mathlib.Omega.{arith}
use ucx_py.Prelude.Tests.{◌==◌, if◌then◌else◌}

abbrev pub Dict {ℓ} : Type ℓ → Type ℓ
Dict E = List (ℕ × E)

module _ {ℓ} {E : Type ℓ} where
  -- `entries[key] = x`
  abbrev pub insert : ℕ → E → Dict E → Dict E
  insert key x [] = (key, x) ∷ []
  insert key x ((k, y) ∷ rest) = if key == k then (key, x) ∷ rest else (k, y) ∷ insert key x rest

  -- `entries.get(key)`
  abbrev pub lookup : ℕ → Dict E → Option E
  lookup key [] = none
  lookup key ((k, y) ∷ rest) = if key == k then some y else lookup key rest

  -- `key in entries`
  abbrev pub contains : ℕ → Dict E → Bool
  contains key entries = elim (lookup key entries) [ some _ ↦ true | none ↦ false ]

  pub lookup-insert :
      (i key : ℕ) (x : E) (entries : Dict E)
      → lookup i (insert key x entries) ≡ (if i == key then some x else lookup i entries)
  lookup-insert i key x [] = refl
  lookup-insert i key x ((k, y) ∷ rest) = ground (arith, lookup-insert i key x rest)
