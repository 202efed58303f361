-- ===== src/Libs/UcxObject/Closing.antt =====
-- What closing an object does to the handles under it.
use ucx_py.Prelude.{ℕ, ◌≡◌, refl, Bool, true, false, not, ◌&&◌, List, [], ◌∷◌, ◌++◌, arith}
use ucx_py.Exceptions.{is_ok, Result, ok}
use ucx_py.Libs.UcxObject.{
  initialized, nothing, Kind, asserts_owner, unset, alive, dead, Object, object, Children, nil,
  gone, cons, is_alive, close, close_all,
}

-- No live object under a live one asserts that its owner is initialized, itself apart.
unfoldable mutual
  unfolding asserts_owner

  pub tame : Object → Bool
  tame (object k h alive cs) = tame_all cs
  tame (object k h life cs) = true

  pub tame_all : Children → Bool
  tame_all nil = true
  tame_all (gone cs) = tame_all cs
  tame_all (cons x cs) = (quiet x && tame x) && tame_all cs

  quiet : Object → Bool
  quiet (object k h life cs) = not (is_alive life && asserts_owner k)

-- The live handles, the children's before their parent's.
unfoldable mutual
  pub live : Object → List ℕ
  live (object k h alive cs) = live_all cs ++ h ∷ []
  live (object k h life cs) = []

  pub live_all : Children → List ℕ
  live_all nil = []
  live_all (gone cs) = live_all cs
  live_all (cons x cs) = live x ++ live_all cs

module _ (frees : ℕ → Result (Unit {0})) (fine : (h : ℕ) → frees h ≡ ok tt) where
  mutual
    unfolding close tame live

    close-freed :
        (x : Object)
        → tame x ≡ true
        → quiet x ≡ true
        → (close frees false x).0 ≡ record { freed = live x; result = ok tt }
    close-freed (object k h unset cs) t q = refl
    close-freed (object k h dead cs) t q = refl
    close-freed (object k h alive cs) t q = ground (arith, fine h, close_all-freed cs)

    close_all-freed :
        (cs : Children)
        → tame_all cs ≡ true
        → (close_all frees cs).0 ≡ record { freed = live_all cs; result = ok tt }
    close_all-freed nil t = refl
    close_all-freed (gone cs) t = close_all-freed cs t
    close_all-freed (cons x cs) t = ground (arith, close-freed x, close_all-freed cs)

  -- Where every handle is freed well, closing an object with its children, their children and so
  -- on, none of which asserts that its owner is initialized while it is alive below another, frees
  -- the handle of every live object once, each after those of its children, and raises nothing.
  pub close-live :
      (x : Object)
      → tame x ≡ true
      → (close frees true x).0 ≡ record { freed = live x; result = ok tt }
  unfolding close tame live
  close-live (object k h unset cs) t = refl
  close-live (object k h dead cs) t = refl
  close-live (object k h alive cs) t = ground (arith, fine h, close_all-freed cs t)

module _ (frees : ℕ → Result (Unit {0})) where
  mutual
    unfolding close tame

    close-is_ok :
        (x : Object) → (quiet x && tame x) ≡ false → is_ok (close frees false x).0.result ≡ false
    close-is_ok (object k h unset cs) t = ground arith
    close-is_ok (object k h dead cs) t = ground arith
    close-is_ok (object k h alive cs) t = ground (arith, close_all-is_ok cs)

    close_all-is_ok :
        (cs : Children) → tame_all cs ≡ false → is_ok (close_all frees cs).0.result ≡ false
    close_all-is_ok nil t = ground arith
    close_all-is_ok (gone cs) t = close_all-is_ok cs t
    close_all-is_ok (cons x cs) t = ground (arith, close-is_ok x, close_all-is_ok cs)

  -- After `close`, whatever it raised, an object is not initialized, and a later `close` frees nothing,
  -- raises nothing and changes nothing.
  pub close_again :
      (owner later : Bool) (x : Object)
      → let y = (close frees owner x).1 in
        (initialized y ≡ false) × (close frees later y ≡ (nothing, y))
  unfolding close initialized
  close_again owner later (object k h unset cs) = (refl, refl)
  close_again owner later (object k h dead cs) = (refl, refl)
  close_again owner later (object k h alive cs) = (refl, refl)

  -- Closing a live object somewhere below which a live worker, endpoint or memory handle is a child
  -- of a live object that is being closed raises an exception and frees just the handles that
  -- closing its children frees, not its own; closing it again frees nothing and raises nothing.
  pub close_stuck :
      (k : Kind) (h : ℕ) (cs : Children)
      → tame_all cs ≡ false
      → let (c, y) = close frees true (object k h alive cs) in
        (is_ok c.result ≡ false)
        × (c.freed ≡ (close_all frees cs).0.freed)
        × (close frees true y ≡ (nothing, y))
  unfolding close
  close_stuck k h cs t =
      let raised = close_all-is_ok cs t in (ground (arith, raised), ground (arith, raised), refl)
