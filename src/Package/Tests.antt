-- ===== src/Package/Tests.antt =====
-- An environment where the user has set the memory cache and, to the empty text, the threshold.
use ucx_py.Prelude.{◌≡◌, refl, true, none, some, [], ◌∷◌}
use ucx_py.Package.{
  Environ, memtype_cache, sockaddr_tls_priority, rndv_thresh, rndv_scheme, another, import_ucp,
  warns,
}
use ucx_py.Libs.Utils.{at_least}

abbrev by_user : Environ
by_user memtype_cache = some (121 ∷ [])
by_user sockaddr_tls_priority = none
by_user rndv_thresh = some []
by_user rndv_scheme = none
by_user (another k) = none

-- The priority of the transports is set for older versions only.
priority :
    (import_ucp (1, 10, 1) by_user sockaddr_tls_priority
      ≡ some (115 ∷ 111 ∷ 99 ∷ 107 ∷ 99 ∷ 109 ∷ []))
    × (import_ucp (1, 11, 0) by_user sockaddr_tls_priority ≡ none)
    × (warns (1, 11, 0) ≡ true)
unfolding import_ucp warns at_least
priority = (refl, refl, refl)
