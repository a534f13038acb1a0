-- ===== src/Portal/Link.antt =====
-- pywaylandauto/backends/portal.py: the transport of a session, and what a granted start does.
use py_wayland_auto.Base.{
  ℕ, Bool, true, false, List, String, Text, Option, none, some, str_eq, if◌then◌else◌,
}
use py_wayland_auto.Outcome.{portal_failed, backend_error}
use py_wayland_auto.TokenCache
use py_wayland_auto.Stateful.{pure, raise, ◌>>=◌, ◌>>◌, gets, catch, on_dbus, on_eis}
use py_wayland_auto.Portal.World.{
  started, Transport, Session, connect_to_eis, eis_handshake, notify_motion, Env, M, modify, invoke,
}
use py_wayland_auto.Portal.Start.{Results, device_list, fail}

module _ (env : Env) where
  -- `TokenCache.save` on the world's files.
  abbrev pub save_token : Text → M (Unit {0})
  save_token t w =
      let (r, fs) = TokenCache.save (env.faults w.log) t w.files in (r, record w { files = fs })

  -- `_probe_notify`
  unfoldable pub probe_notify : M (Unit {0})
  probe_notify = do
    path ← gets (λ w. w.session.session_path)
    catch
        (invoke env (notify_motion path env.zero_float env.zero_float)
          >> modify (λ s. record s { transport = some Transport.notify }))
        (on_dbus (λ _. fail portal_failed))

  -- `EisClient(fd)` and its handshake; a failure leaves the client in place.
  unfoldable pub handshake : M (Unit {0})
  handshake = do
    modify (λ s. record s { eis_client = some (record { keymap_text = none }) })
    catch (invoke env eis_handshake) (on_eis (raise (backend_error portal_failed)))
    text ← gets (λ w. env.keymap w.log)
    modify (λ s. record s {
      eis_client = some (record { keymap_text = text });
      transport = some Transport.eis;
    })

  -- Whether ConnectToEIS gave a descriptor.
  abbrev pub connected : M Bool
  connected = do
    path ← gets (λ w. w.session.session_path)
    catch (invoke env (connect_to_eis path) >> pure true) (on_dbus (λ _. pure false))

  abbrev pub wants_notify : Option String → Bool
  wants_notify none = false
  wants_notify (some text) = str_eq text "notify"

  -- `_choose_transport`
  unfoldable pub choose_transport : M (Unit {0})
  unfolding probe_notify handshake
  choose_transport w =
      if wants_notify w.session.transport_override
      then probe_notify w
      else (do up ← connected; if up then handshake else probe_notify) w

  abbrev pub keep_token : Option Text → M (Unit {0})
  keep_token none = pure tt
  keep_token (some t) = save_token t >> modify (λ s. record s { has_token = true })

  abbrev pub mark_started : List ℕ → Session → Session
  mark_started ds s = record s { devices = ds; state = started }

  unfoldable pub granted : Results → M (Unit {0})
  unfolding choose_transport device_list
  granted results = do
    keep_token results.restore_token
    modify (mark_started (device_list results.devices))
    choose_transport
