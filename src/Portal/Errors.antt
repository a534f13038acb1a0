-- ===== src/Portal/Errors.antt =====
-- pywaylandauto/backends/portal.py: `map_dbus_error`.
use py_wayland_auto.Base.{◌||◌, String, str_eq, if◌then◌else◌}
use py_wayland_auto.Outcome.{
  BackendError, permission_denied, cancelled, portal_failed, portal_unavailable,
}

abbrev pub err_not_allowed : String
err_not_allowed = "org.freedesktop.portal.Error.NotAllowed"

abbrev pub err_cancelled : String
err_cancelled = "org.freedesktop.portal.Error.Cancelled"

unfoldable pub map_dbus_error : String → BackendError
map_dbus_error name =
    if str_eq name err_not_allowed || str_eq name "org.freedesktop.DBus.Error.AccessDenied"
    then permission_denied
    else if str_eq name err_cancelled
    then cancelled
    else if str_eq name "org.freedesktop.portal.Error.InvalidArgument"
        || str_eq name "org.freedesktop.portal.Error.Exists"
        || str_eq name "org.freedesktop.portal.Error.NotFound"
        || str_eq name "org.freedesktop.portal.Error.WindowDestroyed"
        || str_eq name "org.freedesktop.portal.Error.Failed"
    then portal_failed
    else if str_eq name "org.freedesktop.DBus.Error.ServiceUnknown"
        || str_eq name "org.freedesktop.DBus.Error.UnknownMethod"
        || str_eq name "org.freedesktop.DBus.Error.UnknownInterface"
    then portal_unavailable
    else portal_failed
