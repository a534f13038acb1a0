-- ===== src/Portal/Select.antt =====
-- pywaylandauto/backends/portal.py: `_select_devices`, with the retry of a refused token.
use py_wayland_auto.Base.{Bool, true, false, not, ◌&&◌, String, none, str_eq, if◌then◌else◌}
use py_wayland_auto.TokenCache
use py_wayland_auto.Stateful.{◌>>=◌, ◌>>◌, gets, catch, on_dbus}
use py_wayland_auto.Portal.World.{
  on_select_devices, add_response_listener, select_devices, Env, M, modify, new_handle_token,
  invoke,
}
use py_wayland_auto.Portal.Errors.{err_not_allowed, map_dbus_error}
use py_wayland_auto.Portal.Start.{fail, cached}

module _ (env : Env) where
  -- `TokenCache.revoke` on the world's files.
  abbrev pub revoke_token : M (Unit {0})
  revoke_token w =
      let (r, fs) = TokenCache.revoke (env.faults w.log) w.files in (r, record w { files = fs })

  -- The options of SelectDevices, and the call, which alone stands in the source's `try`.
  unfoldable pub select_request : Bool → (String → M (Unit {0})) → M (Unit {0})
  select_request use_token refused = do
    t ← new_handle_token
    invoke env (add_response_listener t on_select_devices)
    token ← cached
    path ← gets (λ w. w.session.session_path)
    catch (invoke env (select_devices path (if use_token then token else none) t)) (on_dbus refused)

  -- `_select_devices(use_token=False)`
  unfoldable pub select_without_token : M (Unit {0})
  unfolding select_request
  select_without_token = select_request false (λ name. fail (map_dbus_error name))

  -- The handler of a refusal that had a cached token.
  unfoldable pub token_refused : String → M (Unit {0})
  unfolding select_without_token
  token_refused name w =
      if str_eq name err_not_allowed && not w.session.retry_without_token
      then (do
        revoke_token
        modify (λ s. record s { has_token = false; retry_without_token = true })
        select_without_token)
          w
      else fail (map_dbus_error name) w

  -- `_select_devices`
  unfoldable pub select : Bool → M (Unit {0})
  unfolding token_refused
  select true = select_request true token_refused
  select false = select_without_token
