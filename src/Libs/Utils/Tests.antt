-- ===== src/Libs/Utils/Tests.antt =====
-- The option TLS=all, printed with a NUL behind it.
use ucx_py.Prelude.{ℕ, ◌≡◌, refl, true, false, [], ◌∷◌, ◌++◌}
use ucx_py.Struct.{Bytes}
use ucx_py.Libs.Ucs.{UcsStatus}
use ucx_py.Libs.Config.{Text, Options}
use ucx_py.Libs.Config.Dict.{print_config}
use ucx_py.Libs.Config.Context.{tls}
use ucx_py.Libs.Utils.{unused, Files, info, get_current_options, is_am_supported, at_least}
use ucx_py.Libs.Utils.Current.{Settled, helpers-Settled}

abbrev tls_all : Options
tls_all = (tls, 97 ∷ 108 ∷ 108 ∷ []) ∷ []

abbrev whole : Files
whole = record { makes = true; fread = λ n. n }

abbrev no_modify : ℕ → Text → Text → UcsStatus × ℕ
no_modify c k v = (UcsStatus.ucs_ok, c)

abbrev printed : ℕ → Bytes
printed c = print_config tls_all ++ 0 ∷ 9 ∷ []

helpers-Settled_example :
    Settled (info (λ b. b) true whole (printed 0) unused).1
    × Settled (get_current_options (λ b. b) no_modify printed UcsStatus.ucs_ok 0 whole unused).1
helpers-Settled_example =
    helpers-Settled (λ b. b) no_modify printed UcsStatus.ucs_ok 0 true whole (printed 0) unused
      (refl, refl, refl)

-- Versions are compared as tuples.
versions : (is_am_supported true (1, 9, 5) ≡ false) × (is_am_supported true (2, 0, 0) ≡ true)
unfolding is_am_supported at_least
versions = (refl, refl)
