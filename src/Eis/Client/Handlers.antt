-- ===== src/Eis/Client/Handlers.antt =====
-- pywaylandauto/backends/eis.py: `_dispatch` and the event handlers. The arguments have the shapes
-- that the signatures give them; any other shape is the ValueError of an unpacking.
use Prim.Native.Nat.{bit_or}
use py_wayland_auto.Base.{
  ℕ, ◌+◌, ◌==◌, true, false, List, [], ◌∷◌, ◌++◌, Option, none, some, if◌then◌else◌, Text, Bytes,
  ltb, length,
}
use py_wayland_auto.Base.Int.{ℤ, pos}
use py_wayland_auto.Outcome.{Result, ok, raised, eis_error, value_error, key_error, struct_error}
use py_wayland_auto.Stateful.{pure, raise, ◌>>=◌, ◌>>◌, gets, change, lift}
use py_wayland_auto.Utf8.{decode}
use py_wayland_auto.Eis.Messages.{Kind, Arg, num, real, text, unpack_args}
use py_wayland_auto.Eis.Tables.{
  Interface, handshake, connection, pingpong, seat, device, interface_named, Event,
  handshake_handshake_version, handshake_connection, connection_disconnected, connection_seat,
  connection_ping, seat_destroyed, seat_capability, seat_done, seat_device, device_destroyed,
  device_name, device_device_type, device_region, device_interface, keyboard_keymap,
  keyboard_modifiers, events_of, find_event, bind_req, done_req,
}
use py_wayland_auto.Eis.Frames.{Frame}
use py_wayland_auto.Eis.Client.{
  Device, new_device, Client, Machine, C, put_key, get_key, put_name, update_device, send,
}

abbrev pub bad_shape : C (Unit {0})
bad_shape = raise value_error

abbrev pub set_object : ℕ → Interface → C (Unit {0})
set_object id i = change (λ c. record c { objects = put_key id i c.objects })

abbrev pub set_serial : ℕ → C (Unit {0})
set_serial serial = change (λ c. record c { last_serial = serial })

-- `_on_handshake_handshake_version`
abbrev pub on_handshake_version : List Arg → C (Unit {0})
on_handshake_version (num (pos v) ∷ []) = change (λ c. record c { server_version = some v })
on_handshake_version args = bad_shape

-- `_on_handshake_connection`
abbrev pub on_connection : List Arg → C (Unit {0})
on_connection (num (pos serial) ∷ num (pos id) ∷ num (pos version) ∷ []) = do
  change (λ c. record c { connection_id = some id })
  set_object id connection
  set_serial serial
on_connection args = bad_shape

-- `_on_connection_seat`
abbrev pub on_seat : List Arg → C (Unit {0})
on_seat (num (pos id) ∷ num (pos version) ∷ []) = do
  change (λ c. record c { seat_id = some id })
  set_object id seat
on_seat args = bad_shape

-- `_on_seat_capability`
abbrev pub on_capability : List Arg → C (Unit {0})
on_capability (num (pos mask) ∷ text name ∷ []) =
    change (λ c. record c { seat_mask = bit_or c.seat_mask mask })
on_capability args = bad_shape

-- `_on_seat_device`
abbrev pub add_device : ℕ → Client → Client
add_device id c = record (update_device c.allocated (λ d. new_device id) c) {
  allocated = c.allocated + 1;
  devices = put_key id c.allocated c.devices;
}

abbrev pub on_device : List Arg → C (Unit {0})
on_device (num (pos id) ∷ num (pos version) ∷ []) = set_object id device >> change (add_device id)
on_device args = bad_shape

-- `self._devices[obj_id]`
abbrev pub place_of : Option ℕ → C ℕ
place_of none = raise key_error
place_of (some place) = pure place

abbrev pub change_device : ℕ → (Device → Device) → C (Unit {0})
change_device obj f = do
  found ← gets (λ c. get_key obj c.devices)
  place ← place_of found
  change (update_device place f)

-- `_on_device_name`
abbrev pub on_device_name : ℕ → List Arg → C (Unit {0})
on_device_name obj (text name ∷ []) = change_device obj (λ d. record d { name = name })
on_device_name obj args = bad_shape

-- `_on_device_device_type`
abbrev pub on_device_type : ℕ → List Arg → C (Unit {0})
on_device_type obj (num (pos kind) ∷ []) = change_device obj (λ d. record d { device_type = kind })
on_device_type obj args = bad_shape

-- `_on_device_region`
abbrev pub on_region : ℕ → List Arg → C (Unit {0})
on_region obj (num (pos x) ∷ num (pos y) ∷ num (pos w) ∷ num (pos h) ∷ real scale ∷ []) =
    change_device obj (λ d. record d { regions = d.regions ++ (x, y, w, h, scale) ∷ [] })
on_region obj args = bad_shape

-- The device that the input methods of an interface use.
abbrev pub chosen : Interface → ℕ → Client → Client
chosen Interface.keyboard place c = record c { keyboard = some place }
chosen Interface.pointer place c = record c { pointer = some place }
chosen Interface.pointer_absolute place c = record c { pointer_abs = some place }
chosen i place c = c

-- `_on_device_interface`
abbrev pub join_interface : ℕ → ℕ → Text → C (Unit {0})
join_interface obj id name = do
  set_object id (interface_named name)
  found ← gets (λ c. get_key obj c.devices)
  place ← place_of found
  change (update_device place (λ d. record d { sub = put_name name id d.sub }))
  change (chosen (interface_named name) place)

abbrev pub on_interface : ℕ → List Arg → C (Unit {0})
on_interface obj (num (pos id) ∷ text name ∷ num (pos version) ∷ []) = join_interface obj id name
on_interface obj args = bad_shape

-- The loop that reads the keymap: until `size` bytes, the end, or an error.
unfoldable pub read_all : ℕ → List (Result Bytes) → Bytes → Result Bytes
read_all size [] got = ok got
read_all size (piece ∷ pieces) got = elim (ltb (length got) size) [
  | false ↦ ok got
  | true ↦ elim piece [
    | raised e ↦ raised e
    | ok chunk ↦ elim chunk [ [] ↦ ok got | b ∷ bs ↦ read_all size pieces (got ++ b ∷ bs) ]
  ]
]

-- A keymap that is not xkb text, or not to be had, changes nothing.
abbrev pub keymap_of : ℕ → Result Bytes → Client → Client
keymap_of kind (raised e) c = c
keymap_of kind (ok []) c = c
keymap_of kind (ok (b ∷ bs)) c =
    if kind == 1 then record c { keymap_text = some (decode (b ∷ bs)) } else c

module _ (m : Machine) where
  -- `_on_seat_done`
  abbrev pub bind_seat : Option ℕ → ℕ → C (Unit {0})
  bind_seat none mask = raise struct_error
  bind_seat (some id) mask = send m id bind_req (num (pos mask) ∷ [])

  unfoldable pub on_seat_done : List Arg → C (Unit {0})
  unfolding send
  on_seat_done [] = do
    change (λ c. record c { bound_mask = some c.seat_mask })
    id ← gets (λ c. c.seat_id)
    mask ← gets (λ c. c.seat_mask)
    bind_seat id mask
  on_seat_done args = bad_shape

  -- `_on_connection_ping`
  unfoldable pub on_ping : List Arg → C (Unit {0})
  unfolding send
  on_ping (num (pos id) ∷ num (pos version) ∷ []) = set_object id pingpong >> send m id done_req []
  on_ping args = bad_shape

  -- `_on_connection_disconnected`
  abbrev pub on_disconnected : List Arg → C (Unit {0})
  on_disconnected (a ∷ b ∷ c ∷ []) = raise eis_error
  on_disconnected args = bad_shape

  -- `_on_keyboard_keymap`
  abbrev pub on_keymap : List Arg → C (Unit {0})
  on_keymap (num (pos kind) ∷ num (pos size) ∷ num fd ∷ []) =
      change (keymap_of kind (read_all size (m.pieces fd) []))
  on_keymap args = bad_shape

  -- `_on_keyboard_modifiers`
  abbrev pub on_modifiers : List Arg → C (Unit {0})
  on_modifiers
        (num (pos serial)
          ∷ num (pos depressed)
          ∷ num (pos locked)
          ∷ num (pos latched)
          ∷ num (pos group)
          ∷ []) =
      do
        change (λ c. record c {
          modifiers = some (serial ∷ depressed ∷ locked ∷ latched ∷ group ∷ []);
        })
        set_serial serial
  on_modifiers args = bad_shape

  -- `_on_seat_destroyed` and `_on_device_destroyed`
  abbrev pub on_destroyed : List Arg → C (Unit {0})
  on_destroyed (num (pos serial) ∷ []) = set_serial serial
  on_destroyed args = bad_shape

  -- The handler of an event, if the client has one.
  unfoldable pub handle_event : Event → ℕ → List Arg → C (Unit {0})
  unfolding on_seat_done on_ping
  handle_event handshake_handshake_version obj args = on_handshake_version args
  handle_event handshake_connection obj args = on_connection args
  handle_event connection_disconnected obj args = on_disconnected args
  handle_event connection_seat obj args = on_seat args
  handle_event connection_ping obj args = on_ping args
  handle_event seat_destroyed obj args = on_destroyed args
  handle_event seat_capability obj args = on_capability args
  handle_event seat_done obj args = on_seat_done args
  handle_event seat_device obj args = on_device args
  handle_event device_destroyed obj args = on_destroyed args
  handle_event device_name obj args = on_device_name obj args
  handle_event device_device_type obj args = on_device_type obj args
  handle_event device_region obj args = on_region obj args
  handle_event device_interface obj args = on_interface obj args
  handle_event keyboard_keymap obj args = on_keymap args
  handle_event keyboard_modifiers obj args = on_modifiers args
  handle_event e obj args = pure tt

  abbrev pub interface_of : Option Interface → Interface
  interface_of none = handshake
  interface_of (some i) = i

  abbrev pub with_fds : Event → ℕ → List Arg × ℕ × List ℤ → C (Unit {0})
  with_fds e obj (args, p, fds) =
      change (λ c. record c { pending_fds = fds }) >> handle_event e obj args

  abbrev pub found_event : ℕ → Bytes → Option (Event × List Kind) → C (Unit {0})
  found_event obj payload none = pure tt
  found_event obj payload (some (e, sig)) = do
    fds ← gets (λ c. c.pending_fds)
    read ← lift (unpack_args m.order m.floats sig payload 0 fds)
    with_fds e obj read

  -- `_dispatch`; an unknown object is taken for the handshake, an unknown event is skipped.
  unfoldable pub dispatch : Frame → C (Unit {0})
  unfolding handle_event
  dispatch f = do
    i ← gets (λ c. interface_of (get_key f.obj c.objects))
    found_event f.obj f.payload (find_event f.opcode (events_of i))
