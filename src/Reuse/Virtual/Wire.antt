-- ===== src/Reuse/Virtual/Wire.antt =====
-- UCX's matching, and the messages in flight by their tags.
use mathlib.Core.List.{append-nil}
use ucx_py.Prelude.{
  ℕ, ◌≡◌, refl, ap, sym, Bool, true, false, none, some, List, [], ◌∷◌, ◌++◌, ◌==◌, if◌then◌else◌,
  ◌⊎◌, inl, inr, All, arith, Bool-cases, ==_iff,
}
use ucx_py.Struct.{Bytes}
use ucx_py.Core.Objects.{Message}
use ucx_py.Reuse.Virtual.{Matching}

-- What the program relies on of UCX: a receive takes the oldest message with its tag.
pub record IsMatching (matching : Matching) : Type 0 where
  pub nothing : (k : ℕ) (w : List Message) → All (λ m. (m.0 == k) ≡ false) w → matching k w ≡ none
  pub oldest :
      (k : ℕ) (before : List Message) (bytes : Bytes) (after : List Message)
      → All (λ m. (m.0 == k) ≡ false) before
      → matching k (before ++ (k, bytes) ∷ after) ≡ some (bytes, before ++ after)

-- The messages on a tag.
abbrev pub on_tag : ℕ → List Message → List Bytes
on_tag k [] = []
on_tag k ((j, bytes) ∷ w) = if j == k then bytes ∷ on_tag k w else on_tag k w

pub on_tag-append : (k : ℕ) (w w' : List Message) → on_tag k (w ++ w') ≡ on_tag k w ++ on_tag k w'
on_tag-append k [] w' = refl
on_tag-append k ((j, bytes) ∷ w) w' = ground (arith, on_tag-append k w w')

on_tag-own :
    (k : ℕ) (before : List Message) (bytes : Bytes) (after : List Message)
    → All (λ m. (m.0 == k) ≡ false) before
    → on_tag k (before ++ (k, bytes) ∷ after) ≡ bytes ∷ on_tag k (before ++ after)
on_tag-own k [] bytes after h = ground arith
on_tag-own k ((j, b) ∷ before) bytes after (h, hs) =
    ground (arith, h, on_tag-own k before bytes after hs)

on_tag-other :
    (j k : ℕ) (before : List Message) (bytes : Bytes) (after : List Message)
    → (k == j) ≡ false
    → on_tag j (before ++ (k, bytes) ∷ after) ≡ on_tag j (before ++ after)
on_tag-other j k [] bytes after h = ground (arith, h)
on_tag-other j k ((i, b) ∷ before) bytes after h =
    ground (arith, on_tag-other j k before bytes after h)

on_tag-none : (k : ℕ) (w : List Message) → All (λ m. (m.0 == k) ≡ false) w → on_tag k w ≡ []
on_tag-none k [] h = refl
on_tag-none k ((j, bytes) ∷ w) (h, hs) = rw h (on_tag-none k w hs)

-- No message on the tag, or a first one.
search_tag :
    (k : ℕ) (w : List Message)
    → All (λ m. (m.0 == k) ≡ false) w
      ⊎ ((before : List Message) × (bytes : Bytes) × (after : List Message) × (w
            ≡ before ++ (k, bytes) ∷ after)
          × All (λ m. (m.0 == k) ≡ false) before)
search_tag k [] = inl tt
search_tag k ((j, bytes) ∷ w) = elim (Bool-cases (j == k)) [
  | inl same ↦ inr ([], bytes, w, ap (λ i. (i, bytes) ∷ w) ((==_iff j k).0 same), tt)
  | inr other ↦ elim (search_tag k w) [
    | inl h ↦ inl (other, h)
    | inr (before, b, after, e, h) ↦
        inr ((j, bytes) ∷ before, b, after, ap (λ l. (j, bytes) ∷ l) e, (other, h))
  ]
]

-- What matching on a tag takes of the messages on it, and what it leaves of the others.
pub matching-on_tag :
    (matching : Matching) (k : ℕ) (w : List Message)
    → IsMatching matching
    → ((matching k w ≡ none) × (on_tag k w ≡ []))
      ⊎ ((bytes : Bytes) × (w' : List Message) × (matching k w ≡ some (bytes, w'))
          × (on_tag k w ≡ bytes ∷ on_tag k w')
          × ((j : ℕ) → (k == j) ≡ false → on_tag j w' ≡ on_tag j w))
matching-on_tag matching k w m = elim (search_tag k w) [
  | inl h ↦ inl (m.nothing k w h, on_tag-none k w h)
  | inr (before, bytes, after, e, h) ↦ inr (
    bytes,
    before ++ after,
    rw e (m.oldest k before bytes after h),
    rw e (on_tag-own k before bytes after h),
    λ j other. rw e (sym (on_tag-other j k before bytes after other)),
  )
]

pub on_tag-sent :
    (j k : ℕ) (bytes : Bytes) (w : List Message) (queue : List Bytes) (same : Bool)
    → (k == j) ≡ same
    → on_tag j w ≡ queue
    → on_tag j (w ++ (k, bytes) ∷ []) ≡ (if same then queue ++ bytes ∷ [] else queue)
on_tag-sent j k bytes w queue true h e = rw (on_tag-append j w ((k, bytes) ∷ []), e, h) refl
on_tag-sent j k bytes w queue false h e =
    rw (on_tag-append j w ((k, bytes) ∷ []), e, h) (append-nil queue)

pub on_tag-received :
    (j k : ℕ) (w' : List Message) (queue : List Bytes) (same : Bool)
    → (k == j) ≡ same
    → ((k == j) ≡ false → on_tag j w' ≡ queue)
    → on_tag j w' ≡ (if same then on_tag k w' else queue)
on_tag-received j k w' queue true h others = ap (λ i. on_tag i w') (sym ((==_iff k j).0 h))
on_tag-received j k w' queue false h others = others h
