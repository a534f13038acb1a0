-- ===== src/Portal/Input.antt =====
-- pywaylandauto/backends/portal.py: the input methods of `PortalSession`, and `click` and `tap` of
-- backends/base.py.
pub mod Pointer
pub mod Keys
pub mod Refusal
pub mod Typing
use py_wayland_auto.Base.{
  ℕ, ◌+◌, Bool, true, false, not, ◌&&◌, List, [], ◌∷◌, String, Text, codes, map, Option, none, some,
  str_eq, text_eq, if◌then◌else◌, is_some, ◌==◌, ltb,
}
use py_wayland_auto.Base.Int.{ℤ, pos, nonzero}
use py_wayland_auto.Outcome.{
  BackendError, backend, session_not_started, permission_pending, permission_denied, portal_failed,
  unsupported_character, Exn, Result, ok, raised, backend_error, value_error, overflow_error,
  assertion_error, eis_error, dbus_error,
}
use py_wayland_auto.Wire.{Float}
use py_wayland_auto.Keysyms.{Name, int, str, lookup}
use py_wayland_auto.Keysyms.Hex.{lower}
use py_wayland_auto.Xkb.{build_resolver}
use py_wayland_auto.Stateful.{pure, raise, ◌>>=◌, ◌>>◌, gets, catch, on_dbus, on_eis, lift}
use py_wayland_auto.Portal.World.{
  State, init, starting, started, stopped, Transport, Eis, EisInput, motion_relative,
  motion_absolute, eis_button, scroll_discrete, scroll_smooth, keyboard_key, Session, Call,
  eis_input, notify_motion, notify_button, notify_axis, notify_axis_discrete, notify_keysym, Env,
  World, M, modify, invoke,
}
use py_wayland_auto.Portal.Errors.{map_dbus_error}

abbrev pub press_code : ℕ
press_code = 1

abbrev pub release_code : ℕ
release_code = 0

abbrev pub axis_vertical : ℕ
axis_vertical = 0

abbrev pub axis_horizontal : ℕ
axis_horizontal = 1

-- What input raises in a session that is not started.
unfoldable pub refusal : Session → Option BackendError
refusal s = elim s.state [
  | started ↦ none
  | starting ↦ some permission_pending
  | _ ↦ elim s.last_error [
    | none ↦ some session_not_started
    | some e ↦ elim e [ permission_denied ↦ some permission_denied | _ ↦ some session_not_started ]
  ]
]

abbrev pub raise_some : Option BackendError → M (Unit {0})
raise_some none = pure tt
raise_some (some e) = raise (backend_error e)

-- `_require_started`
unfoldable pub require_started : M (Unit {0})
unfolding refusal
require_started w = raise_some (refusal w.session) w

-- `_session`: the `assert` keeps a missing path from the portal.
abbrev pub asserted : Option String → M (Option String)
asserted none = raise assertion_error
asserted (some path) = pure (some path)

unfoldable pub session : M (Option String)
unfolding require_started
session = do require_started; path ← gets (λ w. w.session.session_path); asserted path

-- `_press_state`
unfoldable pub press_state : String → Result ℕ
press_state s =
    if str_eq s "press"
    then ok press_code
    else if str_eq s "release"
    then ok release_code
    else raised value_error

abbrev pub is_eis : Option Transport → Bool
is_eis none = false
is_eis (some Transport.notify) = false
is_eis (some Transport.eis) = true

module _ (env : Env) where
  -- `except EisError as e: raise PortalFailedError(str(e))`
  abbrev pub via_eis : M (Unit {0}) → M (Unit {0})
  via_eis m = catch m (on_eis (raise (backend_error portal_failed)))

  -- `except DBusException as e: raise map_dbus_error(e)`
  abbrev pub via_notify : M (Unit {0}) → M (Unit {0})
  via_notify m = catch m (on_dbus (λ name. raise (backend_error (map_dbus_error name))))

  -- `if self.transport == "eis": … return` and what stands behind it.
  abbrev pub by_transport : M (Unit {0}) → M (Unit {0}) → M (Unit {0})
  by_transport m k w = if is_eis w.session.transport then via_eis m w else k w
