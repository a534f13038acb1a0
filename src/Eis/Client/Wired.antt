-- ===== src/Eis/Client/Wired.antt =====
-- The devices that the input methods use have the parts that they use, whatever the server sends.
pub mod Events
use py_wayland_auto.Base.{
  ℕ, suc, ◌+◌, ◌<◌, ◌≡◌, refl, sym, ap, subst, ◌∙◌, Bool, true, false, List, [], ◌∷◌, ◌++◌, Option,
  none, some, is_some, ◌==◌, if◌then◌else◌, Text, Bytes, codes, arith, Bool-cases, Option-cases,
  inl, inr,
}
use py_wayland_auto.Base.Int.{ℤ, pos, negsuc}
use py_wayland_auto.Outcome.{Exn, Result, ok, raised, eis_error}
use py_wayland_auto.Stateful.{Stateful, pure, raise, bind_with, ◌>>=◌, ◌>>◌, gets, change, lift}
use py_wayland_auto.Wire.{Float}
use py_wayland_auto.Utf8.{decode}
use py_wayland_auto.Eis.Messages.{Kind, Arg, num, real, text, pack_message}
use py_wayland_auto.Eis.Tables.{
  bind_req, done_req, Interface, Event, Request, interface_named, handshake_handshake_version,
}
use py_wayland_auto.Eis.Client.{
  Device, Client, Machine, C, get_key, put_key, put_name, get_name, update_device, send, send_bytes,
}
use py_wayland_auto.Eis.Client.Handlers.{
  on_device, on_interface, on_device_name, on_device_type, on_region, on_keymap,
  on_handshake_version, on_connection, on_seat, on_capability, on_disconnected, on_modifiers,
  on_destroyed, read_all, add_device, chosen, join_interface, change_device, place_of, handle_event,
  dispatch, keymap_of, found_event, with_fds, on_seat_done, on_ping, set_object, bind_seat,
}
use py_wayland_auto.Dict.{is_some-put_name, get_name-put_name}
use py_wayland_auto.Eis.Client.Parts.{
  HasPart, AreTaken, keyboard_name, pointer_name, absolute_name, update-HasPart, add-HasPart,
  get_key-lt, interface_named-keyboard, interface_named-pointer, interface_named-pointer_absolute,
  put_key-AreTaken,
}

abbrev pub Wired : Client → Type 0
Wired c =
    HasPart keyboard_name c.keyboard c.allocated c.store
    × HasPart pointer_name c.pointer c.allocated c.store
    × HasPart absolute_name c.pointer_abs c.allocated c.store
    × AreTaken c.allocated c.devices

-- A method that keeps this, whether it returns or raises.
abbrev pub Keeps : {A : Type 0} → C A → Type 0
Keeps m = (c : Client) → Wired c → Wired (m c).1

pub bind-Keeps :
    {A B : Type 0} (m : C A) (k : A → C B) → Keeps m → ((a : A) → Keeps (k a)) → Keeps (m >>= k)
bind-Keeps {A} {B} m k first later c w = go (m c) (first c w)
  where
    go : (r : Result A × Client) → Wired r.1 → Wired (bind_with r k).1
    go (ok a, c') w' = later a c' w'
    go (raised e, c') w' = w'

pub update-Wired :
    (c : Client) (place : ℕ) (f : Device → Device)
    → ((name : Text) (d : Device)
        → is_some (get_name name d.sub) ≡ true
        → is_some (get_name name (f d).sub) ≡ true)
    → Wired c
    → Wired (update_device place f c)
update-Wired c place f grow (k, p, a, taken) = (
  update-HasPart keyboard_name c.keyboard c.allocated c.store place f (grow keyboard_name) k,
  update-HasPart pointer_name c.pointer c.allocated c.store place f (grow pointer_name) p,
  update-HasPart absolute_name c.pointer_abs c.allocated c.store place f (grow absolute_name) a,
  taken,
)

pub add_device-Wired : (id : ℕ) (c : Client) → Wired c → Wired (add_device id c)
add_device-Wired id c (k, p, a, taken) = (
  add-HasPart keyboard_name c.keyboard c.allocated c.store _ k,
  add-HasPart pointer_name c.pointer c.allocated c.store _ p,
  add-HasPart absolute_name c.pointer_abs c.allocated c.store _ a,
  put_key-AreTaken c.allocated id c.devices taken,
)

pub change_device-Keeps :
    (obj : ℕ) (f : Device → Device)
    → ((name : Text) (d : Device)
        → is_some (get_name name d.sub) ≡ true
        → is_some (get_name name (f d).sub) ≡ true)
    → Keeps (change_device obj f)
change_device-Keeps obj f grow c w = go (get_key obj c.devices)
  where
    go :
        (o : Option ℕ)
        → Wired (bind_with (place_of o c) (λ place. change (update_device place f))).1
    go none = w
    go (some place) = update-Wired c place f grow w

chosen-Wired :
    (i : Interface) (name : Text) (place : ℕ) (c : Client)
    → interface_named name ≡ i
    → place < c.allocated
    → is_some (get_name name (c.store place).sub) ≡ true
    → Wired c
    → Wired (chosen i place c)
chosen-Wired Interface.keyboard name place c named taken part (k, p, a, d) = (
  (
    taken,
    subst (λ n. is_some (get_name n (c.store place).sub) ≡ true)
        (interface_named-keyboard name named) part,
  ),
  p,
  a,
  d,
)
chosen-Wired Interface.pointer name place c named taken part (k, p, a, d) = (
  k,
  (
    taken,
    subst (λ n. is_some (get_name n (c.store place).sub) ≡ true)
        (interface_named-pointer name named) part,
  ),
  a,
  d,
)
chosen-Wired Interface.pointer_absolute name place c named taken part (k, p, a, d) = (
  k,
  p,
  (
    taken,
    subst (λ n. is_some (get_name n (c.store place).sub) ≡ true)
        (interface_named-pointer_absolute name named) part,
  ),
  d,
)
chosen-Wired Interface.handshake name place c named taken part w = w
chosen-Wired i name place c named taken part w = w

-- The device at a place gets a part, and is chosen for it.
pub joined-Wired :
    (place id : ℕ) (name : Text) (c : Client)
    → place < c.allocated
    → Wired c
    → Wired (
        chosen
          (interface_named name)
          place
          (update_device place (λ d. record d { sub = put_name name id d.sub }) c))
joined-Wired place id name c taken w =
    chosen-Wired (interface_named name) name place _ refl taken
      (let here : (place == place) ≡ true = ground arith in
        rw (here, get_name-put_name name id (c.store place).sub) refl)
      (update-Wired c place (λ d. record d { sub = put_name name id d.sub })
        (λ n d h. is_some-put_name n name id d.sub h) w)

pub join_interface-Keeps : (obj id : ℕ) (name : Text) → Keeps (join_interface obj id name)
join_interface-Keeps obj id name c w =
    go (get_key obj c.devices) (λ place e. get_key-lt c.allocated obj place c.devices w.3 e)
  where
    c1 : Client
    c1 = record c { objects = put_key id (interface_named name) c.objects }

    go :
        (o : Option ℕ)
        → ((place : ℕ) → o ≡ some place → place < c.allocated)
        → Wired
            (bind_with (place_of o c1) (λ place.
              change (update_device place (λ d. record d { sub = put_name name id d.sub }))
              >> change (chosen (interface_named name) place))).1
    go none h = w
    go (some place) h = joined-Wired place id name c1 (h place refl) w
