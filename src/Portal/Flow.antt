-- ===== src/Portal/Flow.antt =====
-- pywaylandauto/backends/portal.py: the receivers of the portal's signals, with the methods that
-- they call. `name` of a D-Bus error decides; messages and logging are left out.
pub mod Invariant
pub mod Handlers
pub mod Steps
pub mod Late
pub mod Retry
use py_wayland_auto.Stateful.{pure, raise, ◌>>=◌, ◌>>◌, gets, catch, on_dbus, on_eis, lift}
use py_wayland_auto.Portal.Start.{
  Results, Devices, absent, single, many, device_list, failed, fail, reset, cached, new_session,
  begin, start_in, start, close_client, stop,
}
use py_wayland_auto.Portal.Select.{select_request, select_without_token, token_refused, select}
use py_wayland_auto.Portal.Link.{
  probe_notify, handshake, connected, wants_notify, choose_transport, keep_token, mark_started,
  granted,
}
use py_wayland_auto.Base.{
  ℕ, ◌+◌, Bool, true, false, not, ◌&&◌, List, [], ◌∷◌, String, Text, Option, none, some, str_eq,
  if◌then◌else◌, is_some, ◌==◌,
}
use py_wayland_auto.Outcome.{
  BackendError, session_not_started, permission_denied, portal_failed, Exn, Result, ok, raised,
  backend_error, key_error,
}
use py_wayland_auto.TokenCache
use py_wayland_auto.Portal.World.{
  State, init, starting, started, stopped, Transport, Handler, on_create_session, on_select_devices,
  on_start, Eis, Session, Call, add_response_listener, add_session_closed_listener, create_session,
  select_devices, start_session, connect_to_eis, eis_handshake, eis_close, close_session,
  notify_motion, Env, World, M, modify, new_handle_token, invoke,
}
use py_wayland_auto.Portal.Errors.{err_not_allowed, map_dbus_error}

module _ (env : Env) where
  -- `except Exception as e: self._fail(PortalFailedError(str(e)))`
  abbrev pub guarded : M (Unit {0}) → M (Unit {0})
  guarded m = catch m (λ _. fail portal_failed)

  abbrev pub handle_of : Option String → M String
  handle_of none = raise key_error
  handle_of (some path) = pure path

  -- `_on_create_session` from where the path is known.
  unfoldable pub created_at : String → M (Unit {0})
  unfolding select
  created_at path = do
    modify (λ s. record s { session_path = some path })
    invoke env (add_session_closed_listener path)
    use_token ← gets (λ w. w.session.has_token)
    select env use_token

  unfoldable pub created : Results → M (Unit {0})
  unfolding created_at
  created results = handle_of results.session_handle >>= created_at

  -- `_on_create_session`
  unfoldable pub create_session_response : ℕ → Results → M (Unit {0})
  unfolding created
  create_session_response code results =
      guarded (if code == 0 then created results else fail portal_failed)

  unfoldable pub selected : M (Unit {0})
  selected = do
    t ← new_handle_token
    invoke env (add_response_listener t on_start)
    path ← gets (λ w. w.session.session_path)
    catch (invoke env (start_session path t)) (on_dbus (λ name. fail (map_dbus_error name)))

  -- `_on_select_devices`
  unfoldable pub select_devices_response : ℕ → Results → M (Unit {0})
  unfolding selected
  select_devices_response code results =
      guarded (if code == 0 then selected else fail portal_failed)

  -- `_on_start`
  unfoldable pub start_response : ℕ → Results → M (Unit {0})
  unfolding granted
  start_response code results = guarded (
      if code == 0
      then granted env results
      else if code == 1
      then fail permission_denied
      else fail portal_failed)

  -- The Response signal for a handle token whose receiver is `h`.
  unfoldable pub respond : Handler → ℕ → Results → M (Unit {0})
  unfolding create_session_response select_devices_response start_response
  respond on_create_session code results = create_session_response code results
  respond on_select_devices code results = select_devices_response code results
  respond on_start code results = start_response code results

abbrev closed_error : Option BackendError → Option BackendError
closed_error none = some session_not_started
closed_error (some e) = some e

abbrev closed_in : State → Session → Session
closed_in stopped s = s
closed_in _ s = record s {
  state = stopped;
  session_path = none;
  devices = [];
  last_error = closed_error s.last_error;
}

-- `_on_closed`
unfoldable pub on_closed : M (Unit {0})
on_closed = modify (λ s. closed_in s.state s)
