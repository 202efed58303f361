-- ===== src/Reuse/Match.antt =====
-- Which endpoint the server reuses.
use ucx_py.Prelude.{
  ℕ, ◌≡◌, true, false, Option, some, List, [], ◌∷◌, ◌++◌, All, arith, lookup, Option-cases, inl,
  inr,
}
use ucx_py.Reuse.{EpHandle, Existing, find_match}

-- No existing endpoint under the ID is open.
abbrev pub NotOpen : Existing → ℕ → Type 0
NotOpen d id = (h : EpHandle) → lookup id d ≡ some h → h.is_open ≡ false

-- The first ID of the client under which an open endpoint exists is the one that is reused.
pub find_match_first :
    (d : Existing) (found : Option ℕ) (before : List ℕ) (id : ℕ) (after : List ℕ) {h : EpHandle}
    → All (NotOpen d) before
    → lookup id d ≡ some h
    → h.is_open ≡ true
    → find_match d found (before ++ id ∷ after) ≡ some id
unfolding find_match
find_match_first d found [] id after none_open here_ is_open = ground arith
find_match_first d found (x ∷ before) id after none_open here_ is_open =
    elim (Option-cases (lookup x d)) [
      | inl e ↦ rw (e, find_match) (find_match_first d _ before id after none_open.1 here_ is_open)
      | inr (g, e) ↦ ground (
        arith,
        none_open.0 g e,
        find_match_first d (some x) before id after none_open.1 here_ is_open,
      )
    ]

-- If no ID has an open endpoint, the last one decides: an existing endpoint under it is reused
-- though it is closed.
pub find_match_closed :
    (d : Existing) (found : Option ℕ) (before : List ℕ) (id : ℕ) {h : EpHandle}
    → All (NotOpen d) before
    → lookup id d ≡ some h
    → h.is_open ≡ false
    → find_match d found (before ++ id ∷ []) ≡ some id
unfolding find_match
find_match_closed d found [] id none_open here_ shut = ground arith
find_match_closed d found (x ∷ before) id none_open here_ shut = elim (Option-cases (lookup x d)) [
  | inl e ↦ rw (e, find_match) (find_match_closed d _ before id none_open.1 here_ shut)
  | inr (g, e) ↦
      ground (arith, none_open.0 g e, find_match_closed d (some x) before id none_open.1 here_ shut)
]
