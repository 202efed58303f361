-- ===== src/Libs/Topology/Bridges.antt =====
-- The walk from two PCI devices over the bridges above them.
use ucx_py.Prelude.{
  ℕ, zero, suc, ◌+◌, ◌≤◌, ◌≡◌, ◌≢◌, refl, ap, ◌∙◌, true, false, some, [], ◌∷◌, ◌++◌, ◌==◌, length,
  length-append, All, arith,
}
use ucx_py.Prelude.Int.{pos}
use ucx_py.Libs.Topology.{
  Object, Pointer, same, climb, round, found, walk, common_ancestor, bridge_level, pci_level,
  os_level,
}

abbrev pub IsBridge : Object → Type 0
IsBridge x = x.depth ≡ bridge_level

-- Different objects at each level that both paths have.
abbrev pub Apart : Pointer → Pointer → Type 0
Apart (x ∷ xs) (y ∷ ys) = ((x.gp_index == y.gp_index) ≡ false) × Apart xs ys
Apart [] ys = Unit
Apart (x ∷ xs) [] = Unit

-- A PCI device, and an OS device on another PCI device.
pub record IsStart (p o q : Object) : Type 0 where
  pub pci : p.depth ≡ pci_level
  pub os : o.depth ≡ os_level
  pub pci' : q.depth ≡ pci_level
  pub other : (p.gp_index == o.gp_index) ≡ false
  pub apart : (p.gp_index == q.gp_index) ≡ false

round-start :
    (p o q : Object) (xs ys : Pointer) → IsStart p o q → round (p ∷ xs) (o ∷ q ∷ ys) ≡ some (xs, ys)
unfolding round climb
round-start p o q xs ys s = rw (s.os, s.pci, s.pci', s.apart) refl

round-bridges :
    (x y : Object) (xs ys : Pointer)
    → IsBridge x
    → IsBridge y
    → (x.gp_index == y.gp_index) ≡ false
    → round (x ∷ xs) (y ∷ ys) ≡ some (xs, ys)
unfolding round climb
round-bridges x y xs ys b b' a = rw (b, b', a) refl

walk-bridges :
    (n : ℕ) (x y : Object) (xs ys : Pointer)
    → IsBridge x
    → IsBridge y
    → (x.gp_index == y.gp_index) ≡ false
    → walk (suc n) (x ∷ xs) (y ∷ ys) ≡ walk n xs ys
unfolding walk
walk-bridges n x y xs ys b b' a = rw (a, walk, round-bridges x y xs ys b b' a) refl

-- As long as both paths have bridges, and different ones, both pointers go up.
walk-levels :
    (n : ℕ) (xs ys ps qs : Pointer)
    → All IsBridge xs
    → All IsBridge ys
    → Apart xs ys
    → length xs ≡ length ys
    → walk (length xs + n) (xs ++ ps) (ys ++ qs) ≡ walk n ps qs
walk-levels n [] [] ps qs b b' a e = ap (λ k. walk k ps qs) (omega arith)
walk-levels n [] (y ∷ ys) ps qs b b' a e = absurd (omega (arith, e))
walk-levels n (x ∷ xs) [] ps qs b b' a e = absurd (omega (arith, e))
walk-levels n (x ∷ xs) (y ∷ ys) ps qs (b, bs) (b', bs') (a, as_) e =
    ap (λ k. walk k (x ∷ (xs ++ ps)) (y ∷ (ys ++ qs))) (omega arith)
    ∙ walk-bridges (length xs + n) x y (xs ++ ps) (ys ++ qs) b b' a
    ∙ walk-levels n xs ys ps qs bs bs' as_ (omega (arith, e))

walk-start :
    (n : ℕ) (p o q : Object) (xs ys : Pointer)
    → IsStart p o q
    → walk (suc n) (p ∷ xs) (o ∷ q ∷ ys) ≡ walk n xs ys
unfolding walk
walk-start n p o q xs ys s = rw (s.other, walk, round-start p o q xs ys s) refl

same_refl : (p : Pointer) → same p p ≡ true
same_refl [] = refl
same_refl (x ∷ p) = ground arith

walk-same : (n : ℕ) (p : Pointer) → walk n p p ≡ found p
unfolding walk
walk-same zero p = rw (same_refl p) refl
walk-same (suc n) p = rw (same_refl p, walk) refl

-- The rounds that are left when both pointers have passed the bridges xs and ys.
pub start-levels :
    (p o q : Object) (xs ys ps qs : Pointer)
    → IsStart p o q
    → All IsBridge xs
    → All IsBridge ys
    → Apart xs ys
    → length xs ≡ length ys
    → common_ancestor (p ∷ (xs ++ ps)) (o ∷ q ∷ (ys ++ qs))
      ≡ walk (length ps + (length ys + length qs + 2)) ps qs
start-levels p o q xs ys ps qs s b b' a e =
    let k = length ps + (length ys + length qs + 2) in
    ap (λ n. walk n (p ∷ (xs ++ ps)) (o ∷ q ∷ (ys ++ qs)))
      (omega (arith, length-append xs ps, length-append ys qs))
    ∙ walk-start (length xs + k) p o q (xs ++ ps) (ys ++ qs) s
    ∙ walk-levels k xs ys ps qs b b' a e

-- Where two devices on different PCI devices have equally many bridges, different at each level,
-- below the first object that they share, the walk ends at that object.
pub common_ancestor-nearest :
    (p o q z : Object) (xs ys up : Pointer)
    → IsStart p o q
    → All IsBridge xs
    → All IsBridge ys
    → Apart xs ys
    → length xs ≡ length ys
    → common_ancestor (p ∷ (xs ++ z ∷ up)) (o ∷ q ∷ (ys ++ z ∷ up)) ≡ found (z ∷ up)
common_ancestor-nearest p o q z xs ys up s b b' a e =
    start-levels p o q xs ys (z ∷ up) (z ∷ up) s b b' a e ∙ walk-same _ (z ∷ up)

climb-host :
    (k : ℕ) (m : Object) (xs up : Pointer)
    → m.depth ≡ pos k
    → All IsBridge xs
    → climb m.depth (xs ++ m ∷ up) ≡ some (m ∷ up)
unfolding climb
climb-host k m [] up h b = ground arith
climb-host k m (x ∷ xs) up h (b, bs) = ground (arith, climb-host k m xs up h bs)

-- A pointer at a host object stays there, and the other one comes to it from below.
round-host_left :
    (k : ℕ) (m y : Object) (ys up : Pointer)
    → m.depth ≡ pos k
    → All IsBridge (y ∷ ys)
    → round (m ∷ up) (y ∷ (ys ++ m ∷ up)) ≡ some (m ∷ up, m ∷ up)
unfolding round climb
round-host_left k m y ys up h (b, bs) = ground (arith, climb-host k m (y ∷ ys) up h (b, bs))

round-host_right :
    (k : ℕ) (m x : Object) (xs up : Pointer)
    → m.depth ≡ pos k
    → All IsBridge (x ∷ xs)
    → round (x ∷ (xs ++ m ∷ up)) (m ∷ up) ≡ some (m ∷ up, m ∷ up)
unfolding round climb
round-host_right k m x xs up h (b, bs) = ground (arith, climb-host k m (x ∷ xs) up h (b, bs))

-- One pointer is at the host object where the other still has bridges to pass.
walk-past :
    (n k : ℕ) (m : Object) (xs ys up : Pointer)
    → m.depth ≡ pos k
    → All IsBridge xs
    → All IsBridge ys
    → Apart (xs ++ m ∷ []) (ys ++ m ∷ [])
    → length xs ≢ length ys
    → length xs ≤ n
    → walk (suc n) (xs ++ m ∷ up) (ys ++ m ∷ up) ≡ found (m ∷ up)
unfolding walk
walk-past n k m [] [] up h b b' a e w = absurd (e refl)
walk-past n k m [] (y ∷ ys) up h b b' (a, as_) e w =
    rw (a, walk, round-host_left k m y ys up h b') (walk-same n (m ∷ up))
walk-past n k m (x ∷ xs) [] up h b b' (a, as_) e w =
    rw (a, walk, round-host_right k m x xs up h b) (walk-same n (m ∷ up))
walk-past zero k m (x ∷ xs) (y ∷ ys) up h b b' a e w = absurd (omega (arith, w))
walk-past (suc n) k m (x ∷ xs) (y ∷ ys) up h (b, bs) (b', bs') (a, as_) e w =
    walk-bridges (suc n) x y (xs ++ m ∷ up) (ys ++ m ∷ up) b b' a
    ∙ walk-past n k m xs ys up h bs bs' as_ (λ l. e (ap suc l)) (omega (arith, w))

-- Where two devices on different PCI devices have different numbers of bridges between them and an
-- object of the host, with different objects at each level, the walk ends at that object of the
-- host, also where the devices share bridges below it.
pub common_ancestor-past :
    (p o q m : Object) (xs ys up : Pointer) (k : ℕ)
    → IsStart p o q
    → m.depth ≡ pos k
    → All IsBridge xs
    → All IsBridge ys
    → Apart (xs ++ m ∷ []) (ys ++ m ∷ [])
    → length xs ≢ length ys
    → common_ancestor (p ∷ (xs ++ m ∷ up)) (o ∷ q ∷ (ys ++ m ∷ up)) ≡ found (m ∷ up)
common_ancestor-past p o q m xs ys up k s h b b' a e =
    let n = length xs + length ys + length up + length up + 3 in
    ap (λ n. walk n (p ∷ (xs ++ m ∷ up)) (o ∷ q ∷ (ys ++ m ∷ up)))
      (omega (arith, length-append xs (m ∷ up), length-append ys (m ∷ up)))
    ∙ walk-start (suc n) p o q (xs ++ m ∷ up) (ys ++ m ∷ up) s
    ∙ walk-past n k m xs ys up h b b' a e (omega arith)
