-- ===== src/Daemon/Errors.antt =====
-- pywaylandauto/daemon.py, `error_code_for`, with the codes of protocol.py.
use py_wayland_auto.Base.{
  String, ◌≡◌, refl, sym, ap, ◌∙◌, Option, some, none, str_eq, if◌then◌else◌,
}
use py_wayland_auto.Outcome.{
  BackendError, backend, session_not_started, permission_pending, permission_denied, cancelled,
  portal_unavailable, portal_failed, unsupported_character, Exn, backend_error, protocol_error,
  monitor_layout_unavailable, value_error,
}

abbrev pub code_of : BackendError → String
code_of permission_pending = "permission_pending"
code_of permission_denied = "permission_denied"
code_of cancelled = "cancelled"
code_of portal_unavailable = "portal_unavailable"
code_of portal_failed = "portal_failed"
code_of session_not_started = "session_not_started"
code_of unsupported_character = "unsupported_character"
code_of backend = "backend_error"

-- `error_code_for`; an EisError, an OSError and the other exceptions of the interpreter are
-- internal errors.
unfoldable pub error_code_for : Exn → String
error_code_for (protocol_error code) = code
error_code_for (backend_error e) = code_of e
error_code_for monitor_layout_unavailable = "monitor_layout_unavailable"
error_code_for value_error = "invalid_params"
error_code_for e = "internal_error"

-- The error that a code stands for.
unfoldable error_of : String → Option BackendError
error_of code =
    if str_eq code "permission_pending"
    then some permission_pending
    else if str_eq code "permission_denied"
    then some permission_denied
    else if str_eq code "cancelled"
    then some cancelled
    else if str_eq code "portal_unavailable"
    then some portal_unavailable
    else if str_eq code "portal_failed"
    then some portal_failed
    else if str_eq code "session_not_started"
    then some session_not_started
    else if str_eq code "unsupported_character"
    then some unsupported_character
    else if str_eq code "backend_error"
    then some backend
    else none

error_of-code_of : (e : BackendError) → error_of (code_of e) ≡ some e
unfolding error_of
error_of-code_of permission_pending = refl
error_of-code_of permission_denied = refl
error_of-code_of cancelled = refl
error_of-code_of portal_unavailable = refl
error_of-code_of portal_failed = refl
error_of-code_of session_not_started = refl
error_of-code_of unsupported_character = refl
error_of-code_of backend = refl

-- A client can tell the backend's errors apart by their codes.
pub error_code_for_inj :
    (a b : BackendError)
    → error_code_for (backend_error a) ≡ error_code_for (backend_error b)
    → a ≡ b
unfolding error_code_for
error_code_for_inj a b h =
    let same : some a ≡ some b = sym (error_of-code_of a) ∙ ap error_of h ∙ error_of-code_of b in cc
