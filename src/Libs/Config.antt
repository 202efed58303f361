-- ===== src/Libs/Config.antt =====
-- The options of UCX, `_read_ucx_config` and `ucx_config_to_dict` of ucp/_libs/utils.pyx, and the
-- construction of UCXContext in ucx_context.pyx, which uses them. Texts are lists of code points.
pub mod Dict
pub mod Context
pub mod Features
mod Tests
use ucx_py.Prelude.{
  ℕ, ◌+◌, Bool, true, false, ◌&&◌, ◌||◌, List, [], ◌∷◌, ◌++◌, drop, ◌==◌, if◌then◌else◌, Option,
  none, some,
}
use ucx_py.Exceptions.{Exn, Result, ok, err, ◌>>=◌}
use ucx_py.Libs.Ucs.{UcsStatus}

abbrev pub Text : Type 0
Text = List ℕ

abbrev pub Options : Type 0
Options = List (Text × Text)

abbrev pub text_eq : Text → Text → Bool
text_eq [] [] = true
text_eq (a ∷ s) (b ∷ t) = a == b && text_eq s t
text_eq _ _ = false

-- `text.startswith(prefix)`
abbrev pub starts_with : Text → Text → Bool
starts_with [] text = true
starts_with (p ∷ ps) [] = false
starts_with (p ∷ ps) (c ∷ cs) = p == c && starts_with ps cs

-- `part in text`
unfoldable pub part_of : Text → Text → Bool
part_of part [] = starts_with part []
part_of part (c ∷ cs) = starts_with part (c ∷ cs) || part_of part cs

-- Put in front of the first part, or as the only one.
abbrev pub prepend : ℕ → List Text → List Text
prepend c [] = (c ∷ []) ∷ []
prepend c (part ∷ parts) = (c ∷ part) ∷ parts

-- `text.split(sep)`
unfoldable pub split : ℕ → Text → List Text
split sep [] = [] ∷ []
split sep (c ∷ cs) = let parts = split sep cs in if c == sep then [] ∷ parts else prepend c parts

-- The ends of lines that `splitlines` knows.
abbrev pub is_break : ℕ → Bool
is_break c =
    c == 10
    || c == 11
    || c == 12
    || c == 13
    || c == 28
    || c == 29
    || c == 30
    || c == 133
    || c == 8232
    || c == 8233

-- `text.splitlines()`, behind a carriage return or not: a line feed there ends no line.
unfoldable pub lines_from : Bool → Text → List Text
lines_from returned [] = []
lines_from returned (c ∷ cs) =
    let lines = lines_from (c == 13) cs in
    if returned && c == 10 then lines else if is_break c then [] ∷ lines else prepend c lines

-- `d[k] = v`
unfoldable pub put : Text → Text → Options → Options
put k v [] = (k, v) ∷ []
put k v ((k', v') ∷ d) = if text_eq k k' then (k, v) ∷ d else (k', v') ∷ put k v d

-- `k, v = parts`, and `k[4:]`
unfoldable pub pair_of : List Text → Result (Text × Text)
pair_of [] = err Exn.value_error
pair_of (k ∷ []) = err Exn.value_error
pair_of (k ∷ v ∷ []) = ok (drop 4 k, v)
pair_of (k ∷ v ∷ w ∷ rest) = err Exn.value_error

unfoldable pub parse_line : Text → Result (Text × Text)
parse_line line = pair_of (split 61 line)

unfoldable pub parse_lines : Options → List Text → Result Options
parse_lines ret [] = ok ret
parse_lines ret (line ∷ lines) = parse_line line >>= λ (k, v). parse_lines (put k v ret) lines

-- `ucx_config_to_dict` on the text that `ucp_config_print` writes.
unfoldable pub ucx_config_to_dict : Text → Result Options
ucx_config_to_dict text = parse_lines [] (lines_from false text)

-- `cuda_support` by the option TLS: "all", or "cuda" is in it.
unfoldable pub cuda_support : Text → Bool
cuda_support tls = text_eq tls (97 ∷ 108 ∷ 108 ∷ []) || part_of (99 ∷ 117 ∷ 100 ∷ 97 ∷ []) tls

-- `self._config["TLS"]`
unfoldable pub get_item : Text → Options → Result Text
get_item k [] = err Exn.key_error
get_item k ((k', v) ∷ d) = if text_eq k k' then ok v else get_item k d

abbrev pub raise_status : UcsStatus → Exn → Result (Unit {0})
raise_status UcsStatus.ucs_ok x = ok tt
raise_status _ x = err x

-- Over `ucp_config_modify` and what `ucp_config_print` writes of a configuration.
module _ {C : Type 0} (modify : C → Text → Text → UcsStatus × C) (printed : C → Text) where
  unfoldable pub modify_each : Options → C → Result C
  modify_each [] c = ok c
  modify_each ((k, v) ∷ options) c =
      let (status, c') = modify c k v in
      raise_status status Exn.ucx_config_error >>= λ _. modify_each options c'

  -- `_read_ucx_config`, with the status and the configuration of `ucp_config_read`, and how often the
  -- configuration is released.
  unfoldable pub read_ucx_config : UcsStatus → C → Options → Result C × ℕ
  read_ucx_config status c user_options = elim (raise_status status Exn.ucx_config_error) [
    | err x ↦ (err x, 0)
    | ok _ ↦ elim (modify_each user_options c) [ err x ↦ (err x, 1) | ok c' ↦ (ok c', 0) ]
  ]
