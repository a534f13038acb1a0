-- ===== src/Eis/Client/Input.antt =====
-- pywaylandauto/backends/eis.py: the input methods of `EisClient`, each one framed batch.
use py_wayland_auto.Base.{
  ℕ, ◌+◌, Bool, true, false, ◌&&◌, List, [], ◌∷◌, Option, none, some, if◌then◌else◌, Text, codes,
}
use py_wayland_auto.Base.Int.{pos}
use py_wayland_auto.Outcome.{raised, eis_error, key_error, attribute_error}
use py_wayland_auto.Stateful.{pure, raise, ◌>>=◌, ◌>>◌, gets}
use py_wayland_auto.Wire.{Float}
use py_wayland_auto.Eis.Messages.{Arg, num, real}
use py_wayland_auto.Eis.Tables.{
  Request, motion_relative_req, motion_absolute_req, scroll_req, scroll_discrete_req, button_req,
  key_req,
}
use py_wayland_auto.Eis.Client.{Client, Machine, C, get_name, send, begin_frame, end_frame}
use py_wayland_auto.Portal.World.{
  EisInput, motion_relative, motion_absolute, eis_button, scroll_discrete, scroll_smooth,
  keyboard_key,
}

-- A device that is `None` has no attributes.
abbrev pub device_place : Option ℕ → C ℕ
device_place none = raise attribute_error
device_place (some place) = pure place

-- `device.sub[name]`
abbrev pub or_missing : Option ℕ → C ℕ
or_missing none = raise key_error
or_missing (some id) = pure id

module _ (m : Machine) where
  -- `_in_regions`
  unfoldable pub in_regions : List (ℕ × ℕ × ℕ × ℕ × Float) → Float → Float → Bool
  in_regions [] x y = false
  in_regions ((rx, ry, rw, rh, scale) ∷ regions) x y =
      if m.int_le_float rx x
        && m.float_lt_int x (rx + rw)
        && m.int_le_float ry y
        && m.float_lt_int y (ry + rh)
      then true
      else in_regions regions x y

  -- The frame around one request to a part of a device.
  unfoldable pub framed : Text → Request → List Arg → ℕ → C (Unit {0})
  unfolding begin_frame end_frame send
  framed name req args place = do
    begin_frame m place
    found ← gets (λ c. get_name name (c.store place).sub)
    part ← or_missing found
    send m part req args
    end_frame m place

  abbrev pub on_device_at : (Client → Option ℕ) → (ℕ → C (Unit {0})) → C (Unit {0})
  on_device_at field k = do found ← gets field; place ← device_place found; k place

  abbrev pub within_regions : Float → Float → ℕ → C (Unit {0})
  within_regions x y place c =
      if in_regions (c.store place).regions x y
      then framed (codes "ei_pointer_absolute") motion_absolute_req (real x ∷ real y ∷ []) place c
      else (raised eis_error, c)

  -- `pointer_motion_relative`, `pointer_motion_absolute`, `button`, `scroll_discrete`,
  -- `scroll_smooth` and `keyboard_key`.
  unfoldable pub input : EisInput → C (Unit {0})
  unfolding framed in_regions
  input (motion_relative dx dy) =
      on_device_at (λ c. c.pointer)
        (framed (codes "ei_pointer") motion_relative_req (real dx ∷ real dy ∷ []))
  input (motion_absolute x y) = on_device_at (λ c. c.pointer_abs) (within_regions x y)
  input (eis_button button state) =
      on_device_at (λ c. c.pointer)
        (framed (codes "ei_button") button_req (num button ∷ num (pos state) ∷ []))
  input (scroll_discrete dx dy) =
      on_device_at (λ c. c.pointer)
        (framed (codes "ei_scroll") scroll_discrete_req (num dx ∷ num dy ∷ []))
  input (scroll_smooth dx dy) =
      on_device_at (λ c. c.pointer) (framed (codes "ei_scroll") scroll_req (real dx ∷ real dy ∷ []))
  input (keyboard_key keycode state) =
      on_device_at (λ c. c.keyboard)
        (framed (codes "ei_keyboard") key_req (num (pos keycode) ∷ num (pos state) ∷ []))
