-- ===== src/Libs/Topology/Null.antt =====
-- Where the walk to a common ancestor reads through NULL.
use ucx_py.Prelude.{
  ℕ, suc, ◌+◌, ◌≡◌, refl, ap, ◌∙◌, true, false, some, none, [], ◌∷◌, ◌++◌, ◌==◌, length, All, arith,
  inl, inr, ◌⊎◌,
}
use ucx_py.Prelude.Int.{ℤ, ltz}
use ucx_py.Libs.Topology.{Object, Pointer, climb, round, crashed, walk, common_ancestor}
use ucx_py.Libs.Topology.Bridges.{IsBridge, Apart, IsStart, start-levels}

-- Objects that are less deep than d, as far as the tests of the loop see.
abbrev pub Shallower : ℤ → Pointer → Type 0
Shallower d p = All (λ (x : Object). ltz x.depth d ≡ true) p

climb-null : (d : ℤ) (p : Pointer) → Shallower d p → climb d p ≡ none
unfolding climb
climb-null d [] s = refl
climb-null d (x ∷ p) (s, ss) = rw (s, climb) (climb-null d p ss)

climb-stays :
    (d : ℤ) (x : Object) (up : Pointer) → ltz x.depth d ≡ false → climb d (x ∷ up) ≡ some (x ∷ up)
unfolding climb
climb-stays d x up h = rw h refl

ltz-asymm : (d e : ℤ) → ltz d e ≡ true → ltz e d ≡ false
ltz-asymm d e h = ground arith

round-null :
    (z w : Object) (up up' : Pointer)
    → Shallower w.depth (z ∷ up) ⊎ Shallower z.depth (w ∷ up')
    → round (z ∷ up) (w ∷ up') ≡ none
unfolding round
round-null z w up up' (inl s) = rw (climb-null w.depth (z ∷ up) s) refl
round-null z w up up' (inr (s, ss)) =
    rw
      (climb-stays w.depth z up (ltz-asymm w.depth z.depth s), climb-null z.depth (w ∷ up') (s, ss))
      refl

walk-null :
    (n : ℕ) (z w : Object) (up up' : Pointer)
    → (z.gp_index == w.gp_index) ≡ false
    → Shallower w.depth (z ∷ up) ⊎ Shallower z.depth (w ∷ up')
    → walk (suc n) (z ∷ up) (w ∷ up') ≡ crashed
unfolding walk
walk-null n z w up up' a h = rw (a, walk, round-null z w up up' h) refl

-- Where two devices on different PCI devices have equally many bridges, different at each level, up
-- to two different objects, and one of these with all objects above it is less deep than the other,
-- the walk reads through NULL.
pub common_ancestor-crashes :
    (p o q z w : Object) (xs ys up up' : Pointer)
    → IsStart p o q
    → All IsBridge xs
    → All IsBridge ys
    → Apart xs ys
    → (z.gp_index == w.gp_index) ≡ false
    → length xs ≡ length ys
    → Shallower w.depth (z ∷ up) ⊎ Shallower z.depth (w ∷ up')
    → common_ancestor (p ∷ (xs ++ z ∷ up)) (o ∷ q ∷ (ys ++ w ∷ up')) ≡ crashed
common_ancestor-crashes p o q z w xs ys up up' s b b' a a' e h =
    start-levels p o q xs ys (z ∷ up) (w ∷ up') s b b' a e
    ∙ ap (λ n. walk n (z ∷ up) (w ∷ up')) (omega arith)
    ∙ walk-null (length up + length ys + length up' + 3) z w up up' a' h
