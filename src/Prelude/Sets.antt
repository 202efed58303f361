-- ===== src/Prelude/Sets.antt =====
-- Sets of numbers as lists without duplicates.
use Prim.Native.Nat.{ℕ}
use mathlib.Core.Path.{◌≡◌, refl}
use mathlib.Core.Bool.{◌&&◌, Bool, false, ◌||◌}
use mathlib.Core.List.{List, [], ◌∷◌, ◌++◌}
use native.Mathlib.Omega.{arith}
use ucx_py.Prelude.Tests.{◌==◌, if◌then◌else◌}
use ucx_py.Prelude.Lists.{All}

abbrev pub member : ℕ → List ℕ → Bool
member k [] = false
member k (x ∷ xs) = k == x || member k xs

-- `s.add(k)` and `s.update(ks)`
abbrev pub add : ℕ → List ℕ → List ℕ
add k s = if member k s then s else s ++ k ∷ []

abbrev pub update : List ℕ → List ℕ → List ℕ
update [] s = s
update (k ∷ ks) s = update ks (add k s)

-- `s.discard(k)`
abbrev pub discard : ℕ → List ℕ → List ℕ
discard k [] = []
discard k (x ∷ xs) = if k == x then discard k xs else x ∷ discard k xs

-- The members that pass a test.
abbrev pub keep : (ℕ → Bool) → List ℕ → List ℕ
keep test [] = []
keep test (x ∷ xs) = if test x then x ∷ keep test xs else keep test xs

abbrev pub Unique : List ℕ → Type 0
Unique [] = Unit
Unique (x ∷ xs) = (member x xs ≡ false) × Unique xs

pub member-append : (k : ℕ) (xs ys : List ℕ) → member k (xs ++ ys) ≡ (member k xs || member k ys)
member-append k [] ys = refl
member-append k (x ∷ xs) ys = ground (arith, member-append k xs ys)

Unique-append : (k : ℕ) (xs : List ℕ) → Unique xs → member k xs ≡ false → Unique (xs ++ k ∷ [])
Unique-append k [] u h = (refl, tt)
Unique-append k (x ∷ xs) u h = ground (arith, member-append x xs (k ∷ []), Unique-append k xs u.1)

pub Unique-add : (k : ℕ) (s : List ℕ) → Unique s → Unique (add k s)
Unique-add k s u = ground (arith, Unique-append k s u)

pub Unique-update : (ks s : List ℕ) → Unique s → Unique (update ks s)
Unique-update [] s u = u
Unique-update (k ∷ ks) s u = Unique-update ks (add k s) (Unique-add k s u)

pub member-update : (k : ℕ) (ks s : List ℕ) → member k (update ks s) ≡ (member k s || member k ks)
member-update k [] s = ground arith
member-update k (x ∷ ks) s =
    ground (arith, member-update k ks (add x s), member-append k s (x ∷ []))

-- Only the members of the list matter to `keep`.
pub keep-agree : (f g : ℕ → Bool) (xs : List ℕ) → All (λ x. f x ≡ g x) xs → keep f xs ≡ keep g xs
keep-agree f g [] h = refl
keep-agree f g (x ∷ xs) h = ground (arith, keep-agree f g xs h.1)

pub member-keep : (k : ℕ) (f : ℕ → Bool) (xs : List ℕ) → member k (keep f xs) ≡ (f k && member k xs)
member-keep k f [] = ground arith
member-keep k f (x ∷ xs) = grind (arith, member-keep k f xs)

pub Unique-keep : (f : ℕ → Bool) (xs : List ℕ) → Unique xs → Unique (keep f xs)
Unique-keep f [] u = tt
Unique-keep f (x ∷ xs) u = ground (arith, member-keep x f xs, Unique-keep f xs)
