-- ===== src/Libs/Config/Context.antt =====
-- `UCXContext.__init__`: what is released, what is left open, and the test for CUDA.
use ucx_py.Prelude.{ℕ, ◌≡◌, refl, ap, Bool, true, false, [], ◌∷◌, ◌++◌, if◌then◌else◌, arith}
use ucx_py.Exceptions.{Exn, Result, ok, err, ◌>>=◌, is_ok}
use ucx_py.Libs.Ucs.{UcsStatus, assert_ucs_status, is_ucs_ok}
use ucx_py.Prelude.{All, ◌∙◌}
use ucx_py.Libs.Config.Dict.{print_config, Printable, Fresh, plain, ucx_config_to_dict-print_config}
use ucx_py.Libs.Config.{
  Text, Options, part_of, ucx_config_to_dict, cuda_support, get_item, read_ucx_config, modify_each,
}

abbrev pub cuda : Text
cuda = 99 ∷ 117 ∷ 100 ∷ 97 ∷ []

abbrev pub tls : Text
tls = 84 ∷ 76 ∷ 83 ∷ []

pub record Context : Type 0 where
  pub config : Options
  pub has_cuda : Bool

-- The call's result; how often the configuration was read and how often it was released; was
-- `ucp_init` done, and was the finalizer that undoes it added?
pub record Built : Type 0 where
  pub outcome : Result Context
  pub read : ℕ
  pub released : ℕ
  pub initiated : Bool
  pub has_finalizer : Bool

with_cuda : Options → Result Context
with_cuda d = get_item tls d >>= λ t. ok (record { config = d; has_cuda = cuda_support t })

module _ {C : Type 0} (modify : C → Text → Text → UcsStatus × C) (printed : C → Text) where
  -- Behind `_read_ucx_config`: the body of the `try`, and the rest.
  after_read : UcsStatus → C → Built
  after_read init c =
      let made = assert_ucs_status init >>= λ _. ucx_config_to_dict (printed c) >>= with_cuda in
      record {
        outcome = made;
        read = 1;
        released = 1;
        initiated = is_ok (assert_ucs_status init);
        has_finalizer = is_ok made;
      }

  -- `UCXContext.__init__`, with the statuses of `ucp_config_read` and `ucp_init` and the configuration
  -- that the first makes.
  unfoldable pub context_init : UcsStatus → C → UcsStatus → Options → Built
  unfolding after_read with_cuda
  context_init status c init user_options =
      let (config, released) = read_ucx_config modify printed status c user_options in
      elim config [
        | err x ↦ record {
          outcome = err x;
          read = if is_ucs_ok status then 1 else 0;
          released = released;
          initiated = false;
          has_finalizer = false;
        }
        | ok c' ↦ after_read init c'
      ]

  -- A configuration that was read is released once, whatever is raised; and the finalizer is added
  -- exactly when the construction succeeds.
  pub context_init-released :
      (status : UcsStatus) (c : C) (init : UcsStatus) (user_options : Options)
      → let b = context_init status c init user_options in
        (b.released ≡ b.read) × (b.has_finalizer ≡ is_ok b.outcome)
  unfolding context_init read_ucx_config
  context_init-released status c init user_options = ground arith

  -- Where UCX prints a configuration with different names, without ends of lines in names and
  -- values and without "=" in names, but with "=" in a value, the construction of a context without
  -- user options, for which UCX is initiated well, raises ValueError; the configuration is released
  -- once, but UCX stays initiated, and no finalizer was added that would undo it.
  pub context_init-leaks :
      (c : C) (d : Options)
      → printed c ≡ print_config d
      → All Printable d
      → Fresh [] d
      → plain d ≡ false
      → let b = context_init UcsStatus.ucs_ok c UcsStatus.ucs_ok [] in
        (b.outcome ≡ err Exn.value_error)
        × (b.released ≡ 1)
        × (b.initiated ≡ true)
        × (b.has_finalizer ≡ false)
  unfolding context_init read_ucx_config modify_each assert_ucs_status
  context_init-leaks c d prints p f unplain =
      let refused : ucx_config_to_dict (printed c) ≡ err Exn.value_error =
        ap ucx_config_to_dict prints
        ∙ ucx_config_to_dict-print_config d p f
        ∙ ap (λ b. if b then ok d else err Exn.value_error) unplain in
      (ap (λ r. r >>= with_cuda) refused, refl, refl, ap (λ r. is_ok (r >>= with_cuda)) refused)

part_of_lem : (before after : Text) → part_of cuda (before ++ (cuda ++ after)) ≡ true
unfolding part_of
part_of_lem [] after = refl
part_of_lem (c ∷ before) after = ground (arith, part_of_lem before after)

-- "cuda" anywhere in the option TLS counts as support.
pub cuda_support-part : (before after : Text) → cuda_support (before ++ (cuda ++ after)) ≡ true
unfolding cuda_support
cuda_support-part before after = ground (arith, part_of_lem before after)
