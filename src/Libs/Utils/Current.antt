-- ===== src/Libs/Utils/Current.antt =====
-- What `get_current_options` and `info` answer, and what they give back.
use ucx_py.Prelude.{==_iff, ℕ, ◌≡◌, Bool, true, [], All, if◌then◌else◌, length, arith}
use ucx_py.Struct.{Bytes}
use ucx_py.Exceptions.{Exn, ok, err}
use ucx_py.Libs.Ucs.{UcsStatus}
use ucx_py.Libs.Config.{Text, Options, read_ucx_config, modify_each}
use ucx_py.Libs.Config.Dict.{print_config, Printable, Fresh, plain, ucx_config_to_dict-print_config}
use ucx_py.Libs.Utils.{
  Used, Files, create_text_fd, decode_text_fd, written, info, get_current_options, c_string,
}

-- Everything taken has been given back.
abbrev pub Settled : Used → Type 0
Settled u = (u.opened ≡ u.closed) × (u.malloced ≡ u.freed) × (u.configs ≡ u.released)

module _ (decode : Bytes → Text) where
  info-Settled :
      (initialized : Bool) (io : Files) (bytes : Bytes) (u : Used)
      → Settled u
      → Settled (info decode initialized io bytes u).1
  unfolding info written create_text_fd decode_text_fd
  info-Settled initialized io bytes u (a, b, c) = (ground arith, ground arith, ground arith)

  module _ {C : Type 0} (modify : C → Text → Text → UcsStatus × C) (print : C → Bytes) where
    options-Settled :
        (status : UcsStatus) (c : C) (io : Files) (u : Used)
        → Settled u
        → Settled (get_current_options decode modify print status c io u).1
    unfolding get_current_options read_ucx_config modify_each written create_text_fd decode_text_fd
    options-Settled status c io u (h1, h2, h3) = (ground arith, ground arith, ground arith)

    -- Whatever UCX and the system answer, `info` and `get_current_options` close each temporary
    -- file that they have opened, free each text and release each configuration, once, also where
    -- they raise.
    pub helpers-Settled :
        (status : UcsStatus) (c : C) (initialized : Bool) (io : Files) (bytes : Bytes) (u : Used)
        → Settled u
        → Settled (info decode initialized io bytes u).1
          × Settled (get_current_options decode modify print status c io u).1
    helpers-Settled status c initialized io bytes u h =
        (info-Settled initialized io bytes u h, options-Settled status c io u h)

    -- Where UCX reads a configuration and prints it with different names, without ends of lines in
    -- names and values and without "=" in names, and the file is read whole, `get_current_options`
    -- gives the options as they are, or raises ValueError if a value has a "=".
    pub get_current_options-print_config :
        (c : C) (d : Options) (io : Files) (u : Used)
        → io.makes ≡ true
        → ((n : ℕ) → io.fread n ≡ n)
        → decode (c_string (print c)) ≡ print_config d
        → All Printable d
        → Fresh [] d
        → (get_current_options decode modify print UcsStatus.ucs_ok c io u).0
          ≡ (if plain d then ok d else err Exn.value_error)
    unfolding get_current_options read_ucx_config modify_each written create_text_fd decode_text_fd
    get_current_options-print_config c d io u makes reads prints p f =
        let whole = ==_iff (io.fread (length (print c))) (length (print c)) in
        rw (written, create_text_fd, makes, whole.1 (reads (length (print c))), prints)
          (ucx_config_to_dict-print_config d p f)
