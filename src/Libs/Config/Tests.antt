-- ===== src/Libs/Config/Tests.antt =====
-- The option TLS=all, lines, and the default features.
use ucx_py.Prelude.{ℕ, ◌≡◌, refl, false, [], ◌∷◌}
use ucx_py.Prelude.Bits.{bit}
use ucx_py.Libs.Config.Features.{
  Feature, stream, index, asks, features, default_flags, features-asks,
}
use ucx_py.Exceptions.{ok}
use ucx_py.Libs.Config.{Options, ucx_config_to_dict, lines_from}
use ucx_py.Libs.Config.Dict.{print_config, ucx_config_to_dict-print_config}
use ucx_py.Libs.Config.Context.{tls}

abbrev all : Options
all = (tls, 97 ∷ 108 ∷ 108 ∷ []) ∷ []

-- A carriage return and a line feed end one line.
two_lines : lines_from false (1 ∷ 13 ∷ 10 ∷ 2 ∷ 10 ∷ []) ≡ (1 ∷ []) ∷ (2 ∷ []) ∷ []
unfolding lines_from
two_lines = refl

ucx_config_to_dict-print_config_example : ucx_config_to_dict (print_config all) ≡ ok all
ucx_config_to_dict-print_config_example =
    ucx_config_to_dict-print_config all ((refl, refl, refl), tt) (refl, tt)

-- A digit for each feature, as UCX has them in another order.
abbrev place : Feature → ℕ
place f = index f

features-asks_example : bit (place stream) (features place default_flags) ≡ 1
unfolding asks
features-asks_example = features-asks place (λ f g e. e) stream default_flags
