-- ===== src/Eis/Tables.antt =====
-- pywaylandauto/backends/eis_messages.py and eis.py: the interfaces of the EIS protocol with their
-- versions, and the opcodes and signatures of requests and events.
use py_wayland_auto.Base.{
  ℕ, List, [], ◌∷◌, Option, none, some, String, Text, codes, text_eq, if◌then◌else◌, ◌==◌,
}
use py_wayland_auto.Eis.Messages.{Kind, uint32, int32, single, uint64, new_id, string, handle}

-- The names that `_INTERFACES` lists, the handshake, which it does not list, and other names.
pub data Interface : Type 0 where
  handshake connection callback pingpong seat device pointer pointer_absolute scroll button
        keyboard :
      Interface
  other : Interface

-- `_INTERFACES` in its order: the name and the version that is advertised.
abbrev pub interfaces : List (String × Interface × ℕ)
interfaces =
    ("ei_connection", connection, 1)
    ∷ ("ei_callback", callback, 1)
    ∷ ("ei_pingpong", pingpong, 1)
    ∷ ("ei_seat", seat, 1)
    ∷ ("ei_device", device, 1)
    ∷ ("ei_pointer", pointer, 1)
    ∷ ("ei_pointer_absolute", pointer_absolute, 1)
    ∷ ("ei_scroll", scroll, 1)
    ∷ ("ei_button", button, 1)
    ∷ ("ei_keyboard", keyboard, 1)
    ∷ []

abbrev pub find_interface : Text → List (String × Interface × ℕ) → Interface
find_interface name [] = if text_eq name (codes "ei_handshake") then handshake else other
find_interface name ((s, i, v) ∷ rest) =
    if text_eq name (codes s) then i else find_interface name rest

-- The interface of a name.
unfoldable pub interface_named : Text → Interface
interface_named name = find_interface name interfaces

-- An opcode and a signature.
abbrev pub Request : Type 0
Request = ℕ × List Kind

abbrev u2 : List Kind
u2 = uint32 ∷ uint32 ∷ []

abbrev f2 : List Kind
f2 = single ∷ single ∷ []

-- HANDSHAKE_REQ
abbrev pub handshake_version_req : Request
handshake_version_req = (0, uint32 ∷ [])

abbrev pub finish_req : Request
finish_req = (1, [])

abbrev pub context_type_req : Request
context_type_req = (2, uint32 ∷ [])

abbrev pub name_req : Request
name_req = (3, string ∷ [])

abbrev pub interface_version_req : Request
interface_version_req = (4, string ∷ uint32 ∷ [])

-- CONNECTION_REQ, SEAT_REQ, PINGPONG_REQ
abbrev pub disconnect_req : Request
disconnect_req = (1, [])

abbrev pub bind_req : Request
bind_req = (1, uint64 ∷ [])

abbrev pub done_req : Request
done_req = (0, [])

-- DEVICE_REQ
abbrev pub start_emulating_req : Request
start_emulating_req = (1, u2)

abbrev pub stop_emulating_req : Request
stop_emulating_req = (2, uint32 ∷ [])

abbrev pub frame_req : Request
frame_req = (3, uint32 ∷ uint64 ∷ [])

-- POINTER_REQ, POINTER_ABS_REQ, SCROLL_REQ, BUTTON_REQ, KEYBOARD_REQ
abbrev pub motion_relative_req : Request
motion_relative_req = (1, f2)

abbrev pub motion_absolute_req : Request
motion_absolute_req = (1, f2)

abbrev pub scroll_req : Request
scroll_req = (1, f2)

abbrev pub scroll_discrete_req : Request
scroll_discrete_req = (2, int32 ∷ int32 ∷ [])

abbrev pub button_req : Request
button_req = (1, u2)

abbrev pub key_req : Request
key_req = (1, u2)

-- The events, with the interface in the name.
pub data Event : Type 0 where
  handshake_handshake_version handshake_interface_version handshake_connection : Event
  connection_disconnected connection_seat connection_invalid_object connection_ping : Event
  callback_done : Event
  seat_destroyed seat_name seat_capability seat_done seat_device : Event
  device_destroyed device_name device_device_type device_dimensions device_region device_interface
        device_done :
      Event
  keyboard_destroyed keyboard_keymap keyboard_key keyboard_modifiers : Event

abbrev pub Events : Type 0
Events = List (ℕ × Event × List Kind)

abbrev u5 : List Kind
u5 = uint32 ∷ uint32 ∷ uint32 ∷ uint32 ∷ uint32 ∷ []

-- The event tables by interface.
unfoldable pub events_of : Interface → Events
events_of handshake =
    (0, handshake_handshake_version, uint32 ∷ [])
    ∷ (1, handshake_interface_version, string ∷ uint32 ∷ [])
    ∷ (2, handshake_connection, uint32 ∷ new_id ∷ uint32 ∷ [])
    ∷ []
events_of connection =
    (0, connection_disconnected, uint32 ∷ uint32 ∷ string ∷ [])
    ∷ (1, connection_seat, new_id ∷ uint32 ∷ [])
    ∷ (2, connection_invalid_object, uint32 ∷ uint64 ∷ [])
    ∷ (3, connection_ping, new_id ∷ uint32 ∷ [])
    ∷ []
events_of callback = (0, callback_done, []) ∷ []
events_of seat =
    (0, seat_destroyed, uint32 ∷ [])
    ∷ (1, seat_name, string ∷ [])
    ∷ (2, seat_capability, uint64 ∷ string ∷ [])
    ∷ (3, seat_done, [])
    ∷ (4, seat_device, new_id ∷ uint32 ∷ [])
    ∷ []
events_of device =
    (0, device_destroyed, uint32 ∷ [])
    ∷ (1, device_name, string ∷ [])
    ∷ (2, device_device_type, uint32 ∷ [])
    ∷ (3, device_dimensions, u2)
    ∷ (4, device_region, uint32 ∷ uint32 ∷ uint32 ∷ uint32 ∷ single ∷ [])
    ∷ (5, device_interface, new_id ∷ string ∷ uint32 ∷ [])
    ∷ (6, device_done, [])
    ∷ []
events_of keyboard =
    (0, keyboard_destroyed, uint32 ∷ [])
    ∷ (1, keyboard_keymap, uint32 ∷ uint32 ∷ handle ∷ [])
    ∷ (2, keyboard_key, uint32 ∷ uint32 ∷ uint32 ∷ [])
    ∷ (3, keyboard_modifiers, u5)
    ∷ []
events_of i = []

-- The search of `_dispatch` for an opcode.
unfoldable pub find_event : ℕ → Events → Option (Event × List Kind)
find_event opcode [] = none
find_event opcode ((k, e, sig) ∷ rest) =
    if k == opcode then some (e, sig) else find_event opcode rest
