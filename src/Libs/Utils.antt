-- ===== src/Libs/Utils.antt =====
-- The helpers of ucp/_libs/utils.pyx: temporary files, `get_ucx_object`, `get_current_options` and the
-- version of UCX; and `info` of a worker or a context, which uses the files. The decoding of bytes is a
-- parameter.
pub mod Current
mod Tests
use ucx_py.Prelude.{
  ℕ, ◌+◌, Bool, true, false, ◌&&◌, ◌||◌, Option, none, some, List, [], ◌∷◌, length, ◌==◌, ltb, leb,
  if◌then◌else◌,
}
use ucx_py.Struct.{Bytes}
use ucx_py.Exceptions.{Exn, Result, ok, err, ◌>>=◌}
use ucx_py.Libs.Ucs.{UcsStatus, is_ucs_ok}
use ucx_py.Libs.Config.{Text, Options, ucx_config_to_dict, read_ucx_config}

-- What has been taken and given back: temporary files, the memory for a text, and configurations.
pub record Used : Type 0 where
  pub opened : ℕ
  pub closed : ℕ
  pub malloced : ℕ
  pub freed : ℕ
  pub configs : ℕ
  pub released : ℕ

abbrev pub unused : Used
unused = record { opened = 0; closed = 0; malloced = 0; freed = 0; configs = 0; released = 0 }

-- A file system: does `tmpfile` make a file, and how many bytes does `fread` read of so many?
pub record Files : Type 0 where
  pub makes : Bool
  pub fread : ℕ → ℕ

unfoldable pub create_text_fd : Files → Used → Result (Unit {0}) × Used
create_text_fd io u =
    if io.makes then (ok tt, record u { opened = u.opened + 1 }) else (err Exn.os_error, u)

-- A C string ends at its first NUL.
unfoldable pub c_string : Bytes → Bytes
c_string [] = []
c_string (b ∷ bs) = let rest = c_string bs in if b == 0 then [] else b ∷ rest

-- `get_ucx_version() >= (a, b, c)`, on tuples of three.
unfoldable pub at_least : ℕ × ℕ × ℕ → ℕ × ℕ × ℕ → Bool
at_least (x, y, z) (a, b, c) = ltb a x || (x == a && (ltb b y || (y == b && leb c z)))

-- `built` is CY_UCP_AM_SUPPORTED.
unfoldable pub is_am_supported : Bool → ℕ × ℕ × ℕ → Bool
unfolding at_least
is_am_supported built version = if built then at_least version (1, 11, 0) else false

-- The flags of a request for a buffer that `get_ucx_object` tests.
pub record Flags : Type 0 where
  pub writable : Bool
  pub format : Bool
  pub nd : Bool

-- The Py_buffer that it fills in; strides, suboffsets and internal are NULL.
pub record View : Type 0 where
  pub buf : ℕ
  pub len : ℕ
  pub readonly : Bool
  pub itemsize : ℕ
  pub has_format : Bool
  pub ndim : ℕ
  pub shape : Option ℕ

unfoldable pub get_ucx_object : Flags → ℕ → ℕ → Result View
get_ucx_object flags ucx_data nbytes =
    if flags.writable
    then err Exn.buffer_error
    else ok (record {
      buf = ucx_data;
      len = nbytes;
      readonly = true;
      itemsize = 1;
      has_format = flags.format;
      ndim = 1;
      shape = if flags.nd then some nbytes else none;
    })

module _ (decode : Bytes → Text) where
  -- On a file with these bytes.
  unfoldable pub decode_text_fd : Files → Bytes → Used → Result Text × Used
  decode_text_fd io bytes u = (
    if io.fread (length bytes) == length bytes
        then ok (decode (c_string bytes))
        else err Exn.os_error,
    record u { malloced = u.malloced + 1; freed = u.freed + 1; closed = u.closed + 1 },
  )

  -- A file is made, UCX writes these bytes, and they are read.
  unfoldable pub written : Files → Bytes → Used → Result Text × Used
  unfolding create_text_fd decode_text_fd
  written io bytes u =
      let (made, u') = create_text_fd io u in
      elim made [ err x ↦ (err x, u') | ok _ ↦ decode_text_fd io bytes u' ]

  -- `info` of UCXWorker and of UCXContext.
  unfoldable pub info : Bool → Files → Bytes → Used → Result Text × Used
  unfolding written
  info initialized io bytes u =
      if initialized then written io bytes u else (err Exn.assertion_error, u)

  module _ {C : Type 0} (modify : C → Text → Text → UcsStatus × C) (print : C → Bytes) where
    -- `get_current_options`, with the status and the configuration of `ucp_config_read`.
    unfoldable pub get_current_options : UcsStatus → C → Files → Used → Result Options × Used
    unfolding written
    get_current_options status c io u =
        let (config, released) = read_ucx_config modify (λ c. decode (print c)) status c [] in
        let u1 = record u {
          configs = if is_ucs_ok status then u.configs + 1 else u.configs;
          released = u.released + released;
        } in
        elim config [
          | err x ↦ (err x, u1)
          | ok c' ↦
              (let (text, u2) = written io (print c') u1 in
                (text >>= ucx_config_to_dict, record u2 { released = u2.released + 1 }))
        ]
