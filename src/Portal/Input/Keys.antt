-- ===== src/Portal/Input/Keys.antt =====
-- pywaylandauto/backends/portal.py: the keyboard methods of `PortalSession`, and `tap` of
-- backends/base.py.
use py_wayland_auto.Base.{
  ℕ, [], ◌∷◌, String, Text, Option, none, some, str_eq, if◌then◌else◌, ◌==◌, ltb,
}
use py_wayland_auto.Base.Int.{pos}
use py_wayland_auto.Outcome.{unsupported_character, backend_error, value_error}
use py_wayland_auto.Keysyms.{Name, int, lookup}
use py_wayland_auto.Xkb.{build_resolver}
use py_wayland_auto.Stateful.{pure, raise, ◌>>=◌, ◌>>◌, gets, lift}
use py_wayland_auto.Portal.World.{
  Eis, keyboard_key, Session, eis_input, notify_keysym, Env, M, modify, invoke,
}
use py_wayland_auto.Portal.Input.{
  press_code, release_code, require_started, session, press_state, via_notify, by_transport,
}

module _ (env : Env) where
  abbrev pub client_text : Option Eis → Option String
  client_text none = none
  client_text (some e) = e.keymap_text

  -- The resolver, which is built at its first use.
  abbrev pub resolver_of : Session → ℕ → Option (ℕ × ℕ)
  resolver_of s = elim s.resolver [ none ↦ build_resolver (client_text s.eis_client) | some r ↦ r ]

  abbrev pub or_unsupported : Option (ℕ × ℕ) → M (ℕ × ℕ)
  or_unsupported none = raise (backend_error unsupported_character)
  or_unsupported (some found) = pure found

  -- `_resolve_key`
  unfoldable pub resolve_key : ℕ → M (ℕ × ℕ)
  resolve_key ks = do
    modify (λ s. record s { resolver = some (resolver_of s) })
    found ← gets (λ w. resolver_of w.session ks)
    or_unsupported found

  abbrev pub key_event : ℕ → ℕ → M (Unit {0})
  key_event keycode press = invoke env (eis_input (keyboard_key keycode press))

  -- Shift goes down before the key and comes up after it.
  abbrev pub with_shift : ℕ → ℕ → ℕ → M (Unit {0})
  with_shift shift keycode press =
      if press == release_code
      then key_event keycode release_code >> key_event shift release_code
      else key_event shift press_code >> key_event keycode press_code

  abbrev pub at_level : ℕ → ℕ → ℕ → M (Unit {0})
  at_level keycode level press =
      if level == 0
      then key_event keycode press
      else if level == 1
      then resolve_key 0xFFE1 >>= (λ found. with_shift found.0 keycode press)
      else raise (backend_error unsupported_character)

  -- `_key_eis`
  unfoldable pub key_eis : ℕ → ℕ → M (Unit {0})
  unfolding resolve_key
  key_eis ks press = do (keycode, level) ← resolve_key ks; at_level keycode level press

  -- `key` of a keysym and a state other than "tap".
  unfoldable pub key_once : ℕ → String → M (Unit {0})
  unfolding press_state require_started session key_eis
  key_once ks state = do
    press ← lift (press_state state)
    require_started
    by_transport env (key_eis ks press)
        (via_notify env (session >>= λ path. invoke env (notify_keysym path ks press)))

  abbrev pub or_unknown : Option ℕ → M ℕ
  or_unknown none = raise value_error
  or_unknown (some ks) = pure ks

  -- The two calls of a tap look the number up again.
  unfoldable pub tap_number : ℕ → M (Unit {0})
  unfolding key_once
  tap_number ks = do
    down ← or_unknown (lookup (int (pos ks)))
    key_once down "press"
    up ← or_unknown (lookup (int (pos ks)))
    key_once up "release"

  abbrev pub tap_or : ℕ → String → M (Unit {0})
  tap_or ks state = if str_eq state "tap" then tap_number ks else key_once ks state

  -- `key`; a tap calls `key` again with the number, which `lookup` gives back.
  unfoldable pub key : Name → String → M (Unit {0})
  unfolding key_once tap_number
  key name state = do ks ← or_unknown (lookup name); tap_or ks state

  -- `Backend.tap`
  unfoldable pub tap : Name → M (Unit {0})
  unfolding key
  tap name = key name "press" >> key name "release"

  -- Beyond Latin-1 nothing is typed.
  abbrev pub latin1 : ℕ → M (Unit {0}) → M (Unit {0})
  latin1 c m = if ltb 0xFF c then raise (backend_error unsupported_character) else m

  abbrev pub type_char_eis : ℕ → M (Unit {0})
  type_char_eis c = key_eis c press_code >> key_eis c release_code

  -- The loop of `_type_text_eis`.
  unfoldable pub type_eis : Text → M (Unit {0})
  type_eis [] = pure tt
  type_eis (c ∷ cs) = let rest = type_eis cs in latin1 c (type_char_eis c) >> rest

  abbrev pub type_char_notify : ℕ → M (Unit {0})
  type_char_notify c = via_notify env (
      (session >>= (λ path. invoke env (notify_keysym path c press_code)))
      >> (session >>= (λ path. invoke env (notify_keysym path c release_code))))

  -- The loop of `type_text` on the notify transport.
  unfoldable pub type_notify : Text → M (Unit {0})
  type_notify [] = pure tt
  type_notify (c ∷ cs) = let rest = type_notify cs in latin1 c (type_char_notify c) >> rest

  -- `type_text`
  unfoldable pub type_text : Text → M (Unit {0})
  unfolding require_started type_eis type_notify
  type_text text = require_started >> by_transport env (type_eis text) (type_notify text)
