-- ===== src/Package.antt =====
-- ucp/__init__.py: the environment variables of UCX that the import of the package sets, the warning
-- about the version, and `is_am_supported`'s comparison of versions.
mod Tests
use ucx_py.Prelude.{
  ℕ, ◌≡◌, refl, Bool, true, false, not, ◌&&◌, Option, none, some, List, [], ◌∷◌, ◌==◌,
  if◌then◌else◌, arith,
}
use ucx_py.Libs.Config.{Text}
use ucx_py.Libs.Utils.{at_least}

pub data Variable : Type 0 where
  memtype_cache sockaddr_tls_priority rndv_thresh rndv_scheme : Variable
  another : ℕ → Variable

abbrev pub index : Variable → ℕ
index memtype_cache = 0
index sockaddr_tls_priority = 1
index rndv_thresh = 2
index rndv_scheme = 3
index (another n) = 4

-- `os.environ`
abbrev pub Environ : Type 0
Environ = Variable → Option Text

-- `os.environ[v] = value`, for a variable that the package names.
abbrev set : Variable → Text → Environ → Environ
set v value env = λ w. if index w == index v then some value else env w

-- `v in os.environ`
abbrev pub is_set : Option Text → Bool
is_set none = false
is_set (some value) = true

-- `os.environ.get(v, False)` as a test.
abbrev pub is_truthy : Option Text → Bool
is_truthy none = false
is_truthy (some []) = false
is_truthy (some (c ∷ cs)) = true

-- "n", "sockcm", "8192" and "get_zcopy".
abbrev text_n : Text
text_n = 110 ∷ []

abbrev text_sockcm : Text
text_sockcm = 115 ∷ 111 ∷ 99 ∷ 107 ∷ 99 ∷ 109 ∷ []

abbrev text_8192 : Text
text_8192 = 56 ∷ 49 ∷ 57 ∷ 50 ∷ []

abbrev text_get_zcopy : Text
text_get_zcopy = 103 ∷ 101 ∷ 116 ∷ 95 ∷ 122 ∷ 99 ∷ 111 ∷ 112 ∷ 121 ∷ []

abbrev default_unset : Variable → Text → Environ → Environ
default_unset v value env = if is_set (env v) then env else set v value env

abbrev default_falsy : Variable → Text → Environ → Environ
default_falsy v value env = if is_truthy (env v) then env else set v value env

-- The module's statements on the environment, in order, for a version of UCX.
unfoldable pub import_ucp : ℕ × ℕ × ℕ → Environ → Environ
import_ucp version env =
    let env1 = default_unset memtype_cache text_n env in
    let env2 =
      if at_least version (1, 11, 0)
      then env1
      else default_unset sockaddr_tls_priority text_sockcm env1 in
    default_falsy rndv_scheme text_get_zcopy (default_falsy rndv_thresh text_8192 env2)

unfoldable pub warns : ℕ × ℕ × ℕ → Bool
warns version = not (at_least version (1, 11, 1))

-- What the import leaves as the user has set it: the empty text counts for two variables, not for the
-- thresholds and the scheme of the rendezvous protocol.
abbrev pub kept : Variable → Option Text → Bool
kept memtype_cache value = is_set value
kept sockaddr_tls_priority value = is_set value
kept rndv_thresh value = is_truthy value
kept rndv_scheme value = is_truthy value
kept (another k) value = true

keeps :
    (version : ℕ × ℕ × ℕ) (env : Environ) (v : Variable)
    → kept v (env v) ≡ true
    → import_ucp version env v ≡ env v
unfolding import_ucp
keeps version env memtype_cache h = ground (arith, h)
keeps version env sockaddr_tls_priority h = ground (arith, h)
keeps version env rndv_thresh h = ground (arith, h)
keeps version env rndv_scheme h = ground (arith, h)
keeps version env (another k) h = ground (arith, h)

twice :
    (version : ℕ × ℕ × ℕ) (env : Environ) (v : Variable)
    → import_ucp version (import_ucp version env) v ≡ import_ucp version env v
unfolding import_ucp
twice version env memtype_cache = ground arith
twice version env sockaddr_tls_priority = ground arith
twice version env rndv_thresh = ground arith
twice version env rndv_scheme = ground arith
twice version env (another k) = ground arith

-- For any version, the import keeps what the user has set of each variable that it reads, the empty
-- text of the two rendezvous variables apart, and every other variable; afterwards the rendezvous
-- variables and the one of the memory cache are set; and a second import changes nothing.
pub import_ucp-keeps :
    (version : ℕ × ℕ × ℕ) (env : Environ)
    → let env' = import_ucp version env in
      ((v : Variable) → kept v (env v) ≡ true → env' v ≡ env v)
      × ((is_truthy (env' rndv_thresh) ≡ true)
          × (is_truthy (env' rndv_scheme) ≡ true)
          × (is_set (env' memtype_cache) ≡ true))
      × ((v : Variable) → import_ucp version env' v ≡ env' v)
unfolding import_ucp
import_ucp-keeps version env =
    (keeps version env, (ground arith, ground arith, ground arith), twice version env)
