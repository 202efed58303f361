-- ===== src/Exceptions.antt =====
-- ucp/exceptions.py, with the built-in exceptions that the modelled code raises, and results as
-- values: a call returns, or it raises.
use ucx_py.Prelude.{Bool, true, false, if◌then◌else◌}

-- The classes of exceptions.py come first. `struct_error` is the `error` of Python's struct module.
pub data Exn : Type 0 where
  ucx_error ucx_config_error ucx_close_error ucx_canceled : Exn
  ucx_connection_reset ucx_msg_truncated ucx_not_connected : Exn
  attribute_error type_error value_error index_error key_error runtime_error : Exn
  assertion_error os_error not_implemented_error struct_error overflow_error memory_error : Exn
  buffer_error : Exn

-- `except UCXError`: that class and its subclass UCXConfigError.
unfoldable pub is_ucx_error : Exn → Bool
is_ucx_error Exn.ucx_error = true
is_ucx_error Exn.ucx_config_error = true
is_ucx_error _ = false

pub data Result {ℓ} (A : Type ℓ) : Type ℓ where
  ok : A → Result A
  err : Exn → Result A

infixl 5 ◌>>=◌ ◌>>◌
abbrev pub ◌>>=◌ {ℓ κ} : {A : Type ℓ} {B : Type κ} → Result A → (A → Result B) → Result B
err x >>= next = err x
ok a >>= next = next a

abbrev pub ◌>>◌ {ℓ} : {B : Type ℓ} → Result (Unit {0}) → Result B → Result B
m >> k = m >>= λ _. k

abbrev pub is_ok {ℓ} : {A : Type ℓ} → Result A → Bool
is_ok (ok _) = true
is_ok (err _) = false

-- `log_errors()`: what the body raises is logged, and raised again only on demand.
unfoldable pub log_errors : Bool → Result (Unit {0}) → Result (Unit {0})
log_errors reraise_exception (ok a) = ok a
log_errors reraise_exception (err e) = if reraise_exception then err e else ok tt
