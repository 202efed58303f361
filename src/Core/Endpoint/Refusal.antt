-- ===== src/Core/Endpoint/Refusal.antt =====
-- What the calls on a closed endpoint do.
use ucx_py.Prelude.{none, some}
use ucx_py.Exceptions.{Exn, ok, err}
use ucx_py.Libs.UcxEndpoint.{UcxEndpoint}
use ucx_py.Libs.UcxEndpoint
use ucx_py.Core.Endpoint.{Endpoint}

-- The error of the connection where there is one, and UCXCloseError otherwise; but without a
-- handle, `self._ep.raise_on_error()` is a call on `None`.
pub refusal : Endpoint → Exn
refusal e = elim e.ep [
  | none ↦ Exn.attribute_error
  | some b ↦ elim (UcxEndpoint.raise_on_error b).0 [ ok _ ↦ Exn.ucx_close_error | err x ↦ x ]
]
