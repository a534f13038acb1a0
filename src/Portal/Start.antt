-- ===== src/Portal/Start.antt =====
-- pywaylandauto/backends/portal.py: how a session is made, started, failed and stopped.
use py_wayland_auto.Base.{ℕ, Bool, false, List, [], ◌∷◌, String, Text, Option, none, some, is_some}
use py_wayland_auto.Outcome.{BackendError}
use py_wayland_auto.TokenCache
use py_wayland_auto.Stateful.{pure, ◌>>=◌, ◌>>◌, gets, catch, on_dbus}
use py_wayland_auto.Portal.World.{
  State, init, starting, started, stopped, on_create_session, Eis, Session, add_response_listener,
  create_session, eis_close, close_session, Env, M, modify, new_handle_token, invoke,
}
use py_wayland_auto.Portal.Errors.{map_dbus_error}

-- `results` of a Response signal: what the handlers look up. The devices come as one number or as
-- a list.
pub data Devices : Type 0 where
  absent : Devices
  single : ℕ → Devices
  many : List ℕ → Devices

pub record Results : Type 0 where
  pub session_handle : Option String
  pub restore_token : Option Text
  pub devices : Devices

-- `devices` normalised to a list.
unfoldable pub device_list : Devices → List ℕ
device_list absent = []
device_list (single d) = d ∷ []
device_list (many ds) = ds

-- `_fail`
abbrev pub failed : BackendError → Session → Session
failed e s = record s { state = stopped; last_error = some e; session_path = none; devices = [] }

abbrev pub fail : BackendError → M (Unit {0})
fail e = modify (failed e)

-- The attributes that `start` resets.
abbrev pub reset : Session → Session
reset s = record s {
  state = starting;
  last_error = none;
  session_path = none;
  devices = [];
  transport = none;
  eis_client = none;
  resolver = none;
}

abbrev pub cached : M (Option Text)
cached = gets (λ w. TokenCache.load w.files)

abbrev pub set_token_flags : Bool → Session → Session
set_token_flags has s = record s { has_token = has; retry_without_token = false }

-- `__init__`: a session beside a log and token files.
unfoldable pub new_session : Option String → TokenCache.Files → Session
new_session transport_override files = record {
  transport_override = transport_override;
  state = init;
  last_error = none;
  session_path = none;
  devices = [];
  transport = none;
  eis_client = none;
  resolver = none;
  has_token = is_some (TokenCache.load files);
  retry_without_token = false;
}

module _ (env : Env) where
  -- `start`, past its guard.
  unfoldable pub begin : M (Unit {0})
  begin = do
    modify reset
    token ← cached
    modify (set_token_flags (is_some token))
    t ← new_handle_token
    invoke env (add_response_listener t on_create_session)
    u ← new_handle_token
    catch (invoke env (create_session t u)) (on_dbus (λ name. fail (map_dbus_error name)))

  abbrev pub start_in : State → M (Unit {0})
  start_in starting = pure tt
  start_in started = pure tt
  start_in _ = begin

  -- `start`
  unfoldable pub start : M (Unit {0})
  unfolding begin
  start w = start_in w.session.state w

  abbrev pub close_client : Option Eis → M (Unit {0})
  close_client none = pure tt
  close_client (some _) = invoke env eis_close >> modify (λ s. record s { eis_client = none })

  -- `PortalClient.close_session` keeps D-Bus errors to itself.
  abbrev pub close_path : Option String → M (Unit {0})
  close_path none = pure tt
  close_path (some path) = catch (invoke env (close_session path)) (on_dbus (λ _. pure tt))

  -- `stop`
  unfoldable pub stop : M (Unit {0})
  stop = do
    client ← gets (λ w. w.session.eis_client)
    close_client client
    path ← gets (λ w. w.session.session_path)
    close_path path
    modify (λ s. record s { state = stopped; session_path = none; devices = [] })
