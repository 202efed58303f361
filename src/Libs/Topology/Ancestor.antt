-- ===== src/Libs/Topology/Ancestor.antt =====
-- What the walk to a common ancestor ends with.
use ucx_py.Prelude.{
  ℕ, zero, suc, ◌+◌, ◌≤◌, ◌<◌, ◌≡◌, refl, sym, ◌∙◌, ap, Bool, true, false, not, ◌&&◌, some, [], ◌∷◌,
  length, arith, inl, inr, ◌⊎◌, Bool-cases, Option-cases,
}
use ucx_py.Prelude.Int.{ℤ, ltz}
use ucx_py.Libs.Topology.{
  advance, Object, Pointer, same, depth_of, parent, climb, advance, equal_depth, round, found,
  crashed, walk,
}

-- The path q is the path p or one further up.
pub data IsAbove (q : Pointer) : Pointer → Type 0 where
  here : IsAbove q q
  up : {x : Object} {p : Pointer} → IsAbove q p → IsAbove q (x ∷ p)

IsAbove-trans : (r q p : Pointer) → IsAbove r q → IsAbove q p → IsAbove r p
IsAbove-trans r q p a here = a
IsAbove-trans r q (x ∷ p) a (up b) = up (IsAbove-trans r q p a b)

IsAbove-length : (q p : Pointer) → IsAbove q p → length q ≤ length p
IsAbove-length q p here = omega arith
IsAbove-length q (x ∷ p) (up b) = omega (arith, IsAbove-length q p b)

IsAbove-parent : (p : Pointer) → IsAbove (parent p) p
IsAbove-parent [] = here
IsAbove-parent (x ∷ up_) = up here

-- A climb goes up, or stays; it stops at an object that is deep enough.
climb-IsAbove :
    (d : ℤ) (p q : Pointer) → climb d p ≡ some q → IsAbove q p × ((q ≡ p) ⊎ (length q < length p))
unfolding climb
climb-IsAbove d [] q h = ground arith
climb-IsAbove d (x ∷ up_) q h = elim (Bool-cases (ltz x.depth d)) [
  | inl e ↦
      let (above, which) = climb-IsAbove d up_ q (ground arith) in
      (up above, inr (omega (arith, IsAbove-length q up_ above)))
  | inr e ↦ let same_ : q ≡ x ∷ up_ = ground arith in rw same_ (here, inl refl)
]

climb-depth : (d e : ℤ) (p q : Pointer) → climb d p ≡ some q → depth_of q ≡ some e → ltz e d ≡ false
unfolding climb
climb-depth d e [] q h h' = ground arith
climb-depth d e (x ∷ up_) q h h' = ground (arith, climb-depth d e up_ q)

advance-IsAbove :
    (c : Bool) (a b : Pointer) → IsAbove (advance c a b).0 a × IsAbove (advance c a b).1 b
advance-IsAbove true a b = (IsAbove-parent a, IsAbove-parent b)
advance-IsAbove false a b = (here, here)

-- Both climbs of a round, and what it goes on with.
round-parts :
    (p q : Pointer) (r : Pointer × Pointer)
    → round p q ≡ some r
    → (d2 : ℤ) × (a : Pointer) × (d1 : ℤ) × (b : Pointer) × (e : ℤ) × (depth_of q ≡ some d2)
      × (climb d2 p ≡ some a)
      × (depth_of a ≡ some d1)
      × (climb d1 q ≡ some b)
      × (depth_of b ≡ some e)
      × (r ≡ advance (not (same a b) && equal_depth d1 e) a b)
unfolding round
round-parts p q r h = elim (Option-cases (depth_of q)) [
  | inl n ↦ absurd (ground arith)
  | inr (d2, h2) ↦ elim (Option-cases (climb d2 p)) [
    | inl n ↦ absurd (ground arith)
    | inr (a, ha) ↦ elim (Option-cases (depth_of a)) [
      | inl n ↦ absurd (ground arith)
      | inr (d1, h1) ↦ elim (Option-cases (climb d1 q)) [
        | inl n ↦ absurd (ground arith)
        | inr (b, hb) ↦ elim (Option-cases (depth_of b)) [
          | inl n ↦ absurd (ground arith)
          | inr (e, he) ↦ (d2, a, d1, b, e, h2, ha, h1, hb, he, ground arith)
        ]
      ]
    ]
  ]
]

round-IsAbove :
    (p q : Pointer) (r : Pointer × Pointer) → round p q ≡ some r → IsAbove r.0 p × IsAbove r.1 q
round-IsAbove p q r h =
    let (d2, a, d1, b, e, h2, ha, h1, hb, he, which) = round-parts p q r h in
    let (above, above') = advance-IsAbove (not (same a b) && equal_depth d1 e) a b in
    rw which (
      IsAbove-trans _ a p above (climb-IsAbove d2 p a ha).0,
      IsAbove-trans _ b q above' (climb-IsAbove d1 q b hb).0,
    )

-- Where both climbs stay the depths are equal, and both pointers go up.
both-parents :
    (p q : Pointer) (d1 d2 e : ℤ)
    → same p q ≡ false
    → depth_of p ≡ some d1
    → depth_of q ≡ some d2
    → depth_of q ≡ some e
    → ltz d1 d2 ≡ false
    → ltz e d1 ≡ false
    → let (a, b) = advance (not (same p q) && equal_depth d1 e) p q in
      length a + length b < length p + length q
both-parents [] q d1 d2 e differ h1 h2 he deep deep' = absurd (ground arith)
both-parents (x ∷ p) [] d1 d2 e differ h1 h2 he deep deep' = absurd (ground arith)
both-parents (x ∷ p) (y ∷ q) d1 d2 e differ h1 h2 he deep deep' =
    let same_ : e ≡ d2 = ground arith in
    let go : (not (same (x ∷ p) (y ∷ q)) && equal_depth d1 e) ≡ true =
      rw (same_, differ) (rw deep (ap (λ t. not (ltz t d1)) (sym same_) ∙ ap not deep')) in
    rw go (omega arith)

-- Where the pointers differ a round goes up on one side at least.
round-shrinks :
    (p q : Pointer) (r : Pointer × Pointer)
    → same p q ≡ false
    → round p q ≡ some r
    → length r.0 + length r.1 < length p + length q
round-shrinks p q r differ h =
    let (d2, a, d1, b, e, h2, ha, h1, hb, he, which) = round-parts p q r h in
    let (above, above') = advance-IsAbove (not (same a b) && equal_depth d1 e) a b in
    let short = IsAbove-length _ a above in
    let short' = IsAbove-length _ b above' in
    let (up_, moved) = climb-IsAbove d2 p a ha in
    let (up_', moved') = climb-IsAbove d1 q b hb in
    let low = IsAbove-length a p up_ in
    let low' = IsAbove-length b q up_' in
    elim moved [
      | inr less ↦ rw which (omega (arith, less, short, short', low'))
      | inl stay ↦ elim moved' [
        | inr less ↦ rw which (omega (arith, less, short, short', low))
        | inl stay' ↦
            let deep = climb-depth d2 d1 p a ha h1 in
            let deep' = climb-depth d1 e q b hb he in
            rw (which, stay, stay')
              (both-parents p q d1 d2 e differ (ap depth_of (sym stay) ∙ h1) h2
                (ap depth_of (sym stay') ∙ he) deep deep')
      ]
    ]

-- From any two objects, with as many rounds as the paths from both to the root are long, the walk
-- reads through NULL or ends at an object that is on the path of the first one and is the same as
-- an object on the path of the second one.
pub walk-ends :
    (n : ℕ) (p q : Pointer)
    → length p + length q ≤ n
    → (walk n p q ≡ crashed)
      ⊎ ((c c' : Pointer) × (walk n p q ≡ found c)
          × IsAbove c p
          × IsAbove c' q
          × (same c c' ≡ true))
unfolding walk
walk-ends zero [] [] h = inr ([], [], refl, here, here, refl)
walk-ends zero [] (y ∷ q) h = absurd (omega (arith, h))
walk-ends zero (x ∷ p) q h = absurd (omega (arith, h))
walk-ends (suc n) p q h = elim (Bool-cases (same p q)) [
  | inl s ↦ rw (s, walk) (inr (p, q, refl, here, here, s))
  | inr differ ↦ elim (Option-cases (round p q)) [
    | inl bad ↦ rw (differ, walk, bad) (inl refl)
    | inr ((a, b), e) ↦
        let (above, above') = round-IsAbove p q (a, b) e in
        let ih = walk-ends n a b (omega (arith, h, round-shrinks p q (a, b) differ e)) in
        rw (differ, walk, e)
          (elim ih [
            | inl bad ↦ inl bad
            | inr (c, c', w, i, i', s) ↦
                inr (c, c', w, IsAbove-trans c a p i above, IsAbove-trans c' b q i' above', s)
          ])
  ]
]
