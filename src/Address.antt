-- ===== src/Address.antt =====
-- `get_address` and `get_closest_net_devices` of ucp/utils.py. The query of an interface's address
-- (`_get_address`, an ioctl) and the distances of TopologicalDistance are arguments.
pub mod First
mod Tests
use ucx_py.Prelude.{
  ℕ, Bool, true, false, ◌&&◌, ◌||◌, Option, none, some, List, [], ◌∷◌, ◌++◌, ◌==◌, ltb,
  if◌then◌else◌,
}
use ucx_py.Exceptions.{Exn, Result, ok, err}
use ucx_py.Core.Context.Config.{Str}

-- `name.startswith(p)`
unfoldable pub starts_with : Str → Str → Bool
starts_with name [] = true
starts_with [] (p ∷ ps) = false
starts_with (c ∷ name) (p ∷ ps) = (c == p) && starts_with name ps

-- `s <= t` on texts.
unfoldable pub str_le : Str → Str → Bool
str_le [] t = true
str_le (a ∷ s) [] = false
str_le (a ∷ s) (b ∷ t) = ltb a b || ((a == b) && str_le s t)

insert_sorted : Str → List Str → List Str
insert_sorted s [] = s ∷ []
insert_sorted s (t ∷ ts) = if str_le s t then s ∷ t ∷ ts else t ∷ insert_sorted s ts

-- `list.sort`
unfoldable pub sort : List Str → List Str
unfolding insert_sorted
sort [] = []
sort (s ∷ ss) = insert_sorted s (sort ss)

-- `iftypes[p]`: the names of the interfaces that start with p.
unfoldable pub with_prefix : Str → List Str → List Str
unfolding starts_with
with_prefix p [] = []
with_prefix p (name ∷ names) =
    let rest = with_prefix p names in if starts_with name p then name ∷ rest else rest

-- "ib", "eth" and "en"
abbrev pub prefix_priority : List Str
prefix_priority = (105 ∷ 98 ∷ []) ∷ (101 ∷ 116 ∷ 104 ∷ []) ∷ (101 ∷ 110 ∷ []) ∷ []

is_os_error : Exn → Bool
is_os_error Exn.os_error = true
is_os_error _ = false

-- The loop over the interfaces of one prefix returns the first address; an OSError is passed over.
attempt : Result Str → Result (Option Str) → Result (Option Str)
unfolding is_os_error
attempt (ok a) rest = ok (some a)
attempt (err x) rest = if is_os_error x then rest else err x

-- After that loop has run out, that of the next prefix follows.
otherwise : Result (Option Str) → Result (Option Str) → Result (Option Str)
otherwise (ok (some a)) rest = ok (some a)
otherwise (ok none) rest = rest
otherwise (err x) rest = err x

module _ (address : Str → Result Str) where
  unfoldable pub try_each : List Str → Result (Option Str)
  unfolding attempt
  try_each [] = ok none
  try_each (i ∷ is) = attempt (address i) (try_each is)

  unfoldable pub try_prefixes : List Str → List Str → Result (Option Str)
  unfolding try_each sort with_prefix otherwise
  try_prefixes names [] = ok none
  try_prefixes names (p ∷ ps) =
      otherwise (try_each (sort (with_prefix p names))) (try_prefixes names ps)

  -- `get_address(ifname)` where `env` is the variable UCXPY_IFNAME and `names` are the interfaces.
  unfoldable pub get_address : Option Str → Option Str → List Str → Result (Option Str)
  unfolding try_prefixes
  get_address (some ifname) env names = elim (address ifname) [ ok a ↦ ok (some a) | err x ↦ err x ]
  get_address none (some ifname) names = elim (address ifname) [
    | ok a ↦ ok (some a)
    | err x ↦ err x
  ]
  get_address none none names = try_prefixes names prefix_priority

-- `get_closest_net_devices` on the names that TopologicalDistance lists, the closest first: ":1," is
-- put after the name of the first of "openfabrics".
unfoldable pub get_closest_net_devices : List Str → List Str → Str
get_closest_net_devices [] [] = []
get_closest_net_devices [] (name ∷ ifnames) = name
get_closest_net_devices (ib ∷ ibs) [] = ib ++ 58 ∷ 49 ∷ 44 ∷ []
get_closest_net_devices (ib ∷ ibs) (name ∷ ifnames) = (ib ++ 58 ∷ 49 ∷ 44 ∷ []) ++ name
