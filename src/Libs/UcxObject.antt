-- ===== src/Libs/UcxObject.antt =====
-- ucp/_libs/ucx_object.pyx: UCXObject, the base class of the wrappers of UCX's handles, its children
-- and its finalizer, a `weakref.finalize` of the standard library: that is dead once it is called,
-- before its function runs. The finalizers of the subclasses differ in what they assert.
pub mod Closing
mod Tests
use ucx_py.Prelude.{ℕ, Bool, true, false, not, ◌&&◌, List, [], ◌∷◌, ◌++◌, if◌then◌else◌}
use ucx_py.Exceptions.{Exn, Result, ok, err}

-- The subclasses: UCXContext, UCXWorker, UCXEndpoint, UCXListener, UCXAddress, UCXMemoryHandle and
-- UCXRkey.
pub data Kind : Type 0 where
  context worker endpoint listener address memory rkey : Kind

-- The finalizers of UCXWorker, UCXEndpoint and UCXMemoryHandle begin with an assertion that the
-- object that they were made with, whose child the object is, is initialized.
unfoldable pub asserts_owner : Kind → Bool
asserts_owner worker = true
asserts_owner endpoint = true
asserts_owner memory = true
asserts_owner _ = false

-- `_finalizer`: None, alive or dead.
pub data Life : Type 0 where
  unset alive dead : Life

-- An object with its kind, its handle, and its children, weak references in the order in which they
-- were added; `gone` stands for a child that has been collected.
mutual
  pub data Object : Type 0 where
    object : Kind → ℕ → Life → Children → Object

  pub data Children : Type 0 where
    nil : Children
    gone : Children → Children
    cons : Object → Children → Children

abbrev pub is_alive : Life → Bool
is_alive alive = true
is_alive _ = false

unfoldable pub initialized : Object → Bool
initialized (object k h life cs) = is_alive life

append : Children → Object → Children
append nil x = cons x nil
append (gone cs) x = gone (append cs x)
append (cons y cs) x = cons y (append cs x)

unfoldable pub add_child : Object → Object → Object
unfolding append
add_child child (object k h life cs) = object k h life (append cs child)

-- The handles that were given to UCX to be freed, in order, and how the call ends.
pub record Outcome : Type 0 where
  pub freed : List ℕ
  pub result : Result (Unit {0})

abbrev pub nothing : Outcome
nothing = record { freed = []; result = ok tt }

-- `frees` says how the freeing of a handle by UCX ends.
module _ (frees : ℕ → Result (Unit {0})) where
  -- The second half of `_handle_finalizer_wrapper`, after the children; `owner` says whether the
  -- object's owner is initialized.
  finalize : Bool → Kind → ℕ → Outcome → Outcome
  unfolding asserts_owner
  finalize owner k h c = elim c.result [
    | err x ↦ c
    | ok _ ↦
        if asserts_owner k && not owner
        then record c { result = err Exn.assertion_error }
        else record { freed = c.freed ++ h ∷ []; result = frees h }
  ]

  -- What comes of a child's outcome and that of the later ones.
  follow : Outcome × Object → Outcome × Children → Children → Outcome × Children
  follow (c, x) (d, later) untouched = elim c.result [
    | err _ ↦ (c, cons x untouched)
    | ok _ ↦ (record { freed = c.freed ++ d.freed; result = d.result }, cons x later)
  ]

  -- `close`, and the loop over the children of `_handle_finalizer_wrapper`.
  unfoldable mutual
    unfolding finalize follow

    pub close : Bool → Object → Outcome × Object
    close owner (object k h alive cs) =
        let (c, cs') = close_all cs in (finalize owner k h c, object k h dead cs')
    close owner (object k h life cs) = (nothing, object k h life cs)

    pub close_all : Children → Outcome × Children
    close_all nil = (nothing, nil)
    close_all (gone cs) = let (c, cs') = close_all cs in (c, gone cs')
    close_all (cons x cs) = follow (close false x) (close_all cs) cs
