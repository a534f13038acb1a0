-- ===== src/Portal/Input/Pointer.antt =====
-- pywaylandauto/backends/portal.py: the pointer methods of `PortalSession`, and `BUTTONS` and
-- `click` of backends/base.py.
use py_wayland_auto.Base.{ℕ, Bool, String, Text, codes, Option, none, some, text_eq, if◌then◌else◌}
use py_wayland_auto.Base.Int.{ℤ, pos, nonzero}
use py_wayland_auto.Outcome.{
  backend, Result, ok, raised, backend_error, value_error, overflow_error,
}
use py_wayland_auto.Wire.{Float}
use py_wayland_auto.Keysyms.{Name, int, str}
use py_wayland_auto.Keysyms.Hex.{lower}
use py_wayland_auto.Stateful.{pure, raise, ◌>>=◌, ◌>>◌, lift}
use py_wayland_auto.Portal.World.{
  motion_relative, motion_absolute, eis_button, scroll_discrete, scroll_smooth, eis_input,
  notify_motion, notify_button, notify_axis, notify_axis_discrete, Env, M, invoke,
}
use py_wayland_auto.Portal.Input.{
  axis_vertical, axis_horizontal, require_started, session, press_state, via_notify, by_transport,
}

-- `float(n)` of an int.
abbrev pub float_result : Option Float → Result Float
float_result none = raised overflow_error
float_result (some x) = ok x

-- The names of `BUTTONS`, with their codes.
unfoldable pub button_named : Text → Option ℕ
button_named name =
    if text_eq name (codes "left")
    then some 0x110
    else if text_eq name (codes "right")
    then some 0x111
    else if text_eq name (codes "middle")
    then some 0x112
    else if text_eq name (codes "back")
    then some 0x113
    else if text_eq name (codes "forward")
    then some 0x114
    else none

abbrev pub or_value_error : Option ℕ → Result ℤ
or_value_error none = raised value_error
or_value_error (some c) = ok (pos c)

-- `_button_code`; the text of a value that is neither int nor str names no button.
unfoldable pub button_code : Name → Result ℤ
unfolding button_named
button_code (int n) = ok n
button_code (str name) = or_value_error (button_named (lower name))
button_code Name.other = raised value_error

module _ (env : Env) where
  -- `move_abs`, without a translator.
  unfoldable pub move_abs : Float → Float → M (Unit {0})
  unfolding require_started
  move_abs x y =
      require_started
      >> by_transport env (invoke env (eis_input (motion_absolute x y)))
          (raise (backend_error backend))

  unfoldable pub move_rel : Float → Float → M (Unit {0})
  unfolding require_started session
  move_rel dx dy =
      require_started
      >> by_transport env (invoke env (eis_input (motion_relative dx dy)))
          (via_notify env (session >>= λ path. invoke env (notify_motion path dx dy)))

  unfoldable pub button : Name → String → M (Unit {0})
  unfolding button_code press_state require_started session
  button name state = do
    code ← lift (button_code name)
    press ← lift (press_state state)
    require_started
    by_transport env (invoke env (eis_input (eis_button code press)))
        (via_notify env (session >>= λ path. invoke env (notify_button path code press)))

  -- `Backend.click`
  unfoldable pub click : Name → M (Unit {0})
  unfolding button
  click name = button name "press" >> button name "release"

  -- `float(dx), float(dy)` of two ints.
  abbrev pub floats : ℤ → ℤ → M (Float × Float)
  floats dx dy = do
    x ← lift (float_result (env.float_of dx))
    y ← lift (float_result (env.float_of dy))
    pure (x, y)

  abbrev axis_if : ℤ → ℕ → M (Unit {0})
  axis_if n axis =
      if nonzero n
      then session >>= (λ path. invoke env (notify_axis_discrete path axis n))
      else pure tt

  unfoldable pub scroll : ℤ → ℤ → Bool → M (Unit {0})
  unfolding require_started session
  scroll dx dy discrete =
      require_started
      >> by_transport env
          (if discrete
            then invoke env (eis_input (scroll_discrete dx dy))
            else floats dx dy >>= λ p. invoke env (eis_input (scroll_smooth p.0 p.1)))
          (via_notify env (
            if discrete
            then axis_if dy axis_vertical >> axis_if dx axis_horizontal
            else session >>= λ path. floats dx dy >>= λ p. invoke env (notify_axis path p.0 p.1)))
