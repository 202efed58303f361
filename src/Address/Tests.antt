-- ===== src/Address/Tests.antt =====
-- Interfaces with their addresses.
use ucx_py.Prelude.{◌≡◌, refl, none, some, List, [], ◌∷◌, if◌then◌else◌}
use ucx_py.Exceptions.{Exn, Result, ok, err}
use ucx_py.Core.Context.Config.{Str}
use ucx_py.Address.{get_address, try_prefixes, try_each, sort, with_prefix, starts_with, str_le}

-- "en0" and "eth1"; the latter has no address.
abbrev names : List Str
names = (101 ∷ 110 ∷ 48 ∷ []) ∷ (101 ∷ 116 ∷ 104 ∷ 49 ∷ []) ∷ []

unfoldable address : Str → Result Str
unfolding starts_with
address i = if starts_with i (101 ∷ 110 ∷ []) then ok (49 ∷ []) else err Exn.os_error

en0_address : get_address address none none names ≡ ok (some (49 ∷ []))
unfolding address get_address try_prefixes try_each sort with_prefix starts_with str_le
en0_address = refl
