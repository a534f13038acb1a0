-- ===== src/Tests/Client.antt =====
-- The EIS client at concrete inputs: a handshake with one device, and input after it.
use py_wayland_auto.Base.{
  ◌≡◌, refl, ap, Bool, true, false, List, [], ◌∷◌, ◌++◌, none, some, Bytes, codes, Text, drop,
  arith,
}
use py_wayland_auto.Base.Int.{pos, negsuc}
use py_wayland_auto.Outcome.{Result, ok, raised, struct_error}
use py_wayland_auto.Utf8.{encode, encode_char, decode_from, step, lead}
use py_wayland_auto.Wire.{little, get, put, pack_unsigned, pack_signed, unpack_at}
use py_wayland_auto.Eis.Messages.{
  Arg, num, pack_args, pack_arg, pack_text, pack_single, pack_message, unpack_args, unpack_arg,
  round4,
}
use py_wayland_auto.Eis.Tables.{
  device, button_req, start_emulating_req, events_of, find_event, interface_named,
}
use py_wayland_auto.Eis.Frames.{Frame, next_frame, drain}
use py_wayland_auto.Eis.Client.{
  Device, new_device, Client, new_client, Machine, send, send_bytes, begin_frame, end_frame,
  put_key, get_key, put_name, get_name,
}
use py_wayland_auto.Eis.Client.Handlers.{dispatch, handle_event, on_seat_done, on_ping, read_all}
use py_wayland_auto.Eis.Client.Input.{framed, input}
use py_wayland_auto.Eis.Client.Handshake.{
  received, nothing_yet, Round, Waited, pump_once, wait, announce, announce_interfaces, handshake,
}
use py_wayland_auto.Eis.Client.Harmless.{Harmless}
use py_wayland_auto.Eis.Client.Safe.{handshake-Harmless}
use py_wayland_auto.Eis.Client.Wired.{Wired}
use py_wayland_auto.Eis.Client.Wired.Events.{dispatch-Wired}
use py_wayland_auto.Eis.Client.Framed.{Packs, IsBatch, framed-sent, negative_button-sent}
use py_wayland_auto.Portal.World.{keyboard_key, eis_button}
use py_wayland_auto.Tests.Codec.{floats}

-- A machine on which every message goes out, and whose descriptors hold one byte.
abbrev machine : Machine
machine = record {
  order = little;
  floats = floats;
  accepts = λ sent raw. true;
  pieces = λ fd. ok (65 ∷ []) ∷ [];
  monotonic_us = λ sent. 1000;
  int_le_float = λ n x. true;
  float_lt_int = λ x n. true;
}

abbrev version_event : Bytes
version_event = 0 ∷ 0 ∷ 0 ∷ 0 ∷ 0 ∷ 0 ∷ 0 ∷ 0 ∷ 20 ∷ 0 ∷ 0 ∷ 0 ∷ 0 ∷ 0 ∷ 0 ∷ 0 ∷ 1 ∷ 0 ∷ 0 ∷ 0 ∷ []

-- The connection is object 1.
abbrev connection_event : Bytes
connection_event =
    0 ∷ 0 ∷ 0 ∷ 0 ∷ 0 ∷ 0 ∷ 0 ∷ 0 ∷ 32 ∷ 0 ∷ 0 ∷ 0 ∷ 2 ∷ 0 ∷ 0 ∷ 0 ∷ 7 ∷ 0 ∷ 0 ∷ 0 ∷ 1 ∷ 0 ∷ 0 ∷ 0
    ∷ 0 ∷ 0 ∷ 0 ∷ 0 ∷ 1 ∷ 0 ∷ 0 ∷ 0 ∷ []

-- The seat is object 2.
abbrev seat_event : Bytes
seat_event =
    1 ∷ 0 ∷ 0 ∷ 0 ∷ 0 ∷ 0 ∷ 0 ∷ 0 ∷ 28 ∷ 0 ∷ 0 ∷ 0 ∷ 1 ∷ 0 ∷ 0 ∷ 0 ∷ 2 ∷ 0 ∷ 0 ∷ 0 ∷ 0 ∷ 0 ∷ 0 ∷ 0
    ∷ 1 ∷ 0 ∷ 0 ∷ 0 ∷ []

-- A capability of the seat.
abbrev capability_event : Bytes
capability_event =
    2 ∷ 0 ∷ 0 ∷ 0 ∷ 0 ∷ 0 ∷ 0 ∷ 0 ∷ 40 ∷ 0 ∷ 0 ∷ 0 ∷ 2 ∷ 0 ∷ 0 ∷ 0 ∷ 5 ∷ 0 ∷ 0 ∷ 0 ∷ 0 ∷ 0 ∷ 0 ∷ 0
    ∷ 10 ∷ 0 ∷ 0 ∷ 0 ∷ 101 ∷ 105 ∷ 95 ∷ 98 ∷ 117 ∷ 116 ∷ 116 ∷ 111 ∷ 110 ∷ 0 ∷ 0 ∷ 0 ∷ []

-- The seat is described.
abbrev seat_done_event : Bytes
seat_done_event = 2 ∷ 0 ∷ 0 ∷ 0 ∷ 0 ∷ 0 ∷ 0 ∷ 0 ∷ 16 ∷ 0 ∷ 0 ∷ 0 ∷ 3 ∷ 0 ∷ 0 ∷ 0 ∷ []

-- A device, object 3.
abbrev device_event : Bytes
device_event =
    2 ∷ 0 ∷ 0 ∷ 0 ∷ 0 ∷ 0 ∷ 0 ∷ 0 ∷ 28 ∷ 0 ∷ 0 ∷ 0 ∷ 4 ∷ 0 ∷ 0 ∷ 0 ∷ 3 ∷ 0 ∷ 0 ∷ 0 ∷ 0 ∷ 0 ∷ 0 ∷ 0
    ∷ 1 ∷ 0 ∷ 0 ∷ 0 ∷ []

-- Its keyboard, object 4.
abbrev keyboard_event : Bytes
keyboard_event =
    3 ∷ 0 ∷ 0 ∷ 0 ∷ 0 ∷ 0 ∷ 0 ∷ 0 ∷ 44 ∷ 0 ∷ 0 ∷ 0 ∷ 5 ∷ 0 ∷ 0 ∷ 0 ∷ 4 ∷ 0 ∷ 0 ∷ 0 ∷ 0 ∷ 0 ∷ 0 ∷ 0
    ∷ 12 ∷ 0 ∷ 0 ∷ 0 ∷ 101 ∷ 105 ∷ 95 ∷ 107 ∷ 101 ∷ 121 ∷ 98 ∷ 111 ∷ 97 ∷ 114 ∷ 100 ∷ 0 ∷ 1 ∷ 0 ∷ 0
    ∷ 0 ∷ []

-- Its absolute pointer, object 5.
abbrev absolute_event : Bytes
absolute_event =
    3 ∷ 0 ∷ 0 ∷ 0 ∷ 0 ∷ 0 ∷ 0 ∷ 0 ∷ 52 ∷ 0 ∷ 0 ∷ 0 ∷ 5 ∷ 0 ∷ 0 ∷ 0 ∷ 5 ∷ 0 ∷ 0 ∷ 0 ∷ 0 ∷ 0 ∷ 0 ∷ 0
    ∷ 20 ∷ 0 ∷ 0 ∷ 0 ∷ 101 ∷ 105 ∷ 95 ∷ 112 ∷ 111 ∷ 105 ∷ 110 ∷ 116 ∷ 101 ∷ 114 ∷ 95 ∷ 97 ∷ 98 ∷ 115
    ∷ 111 ∷ 108 ∷ 117 ∷ 116 ∷ 101 ∷ 0 ∷ 1 ∷ 0 ∷ 0 ∷ 0 ∷ []

-- The keymap of the keyboard, one byte behind a descriptor.
abbrev keymap_event : Bytes
keymap_event =
    4 ∷ 0 ∷ 0 ∷ 0 ∷ 0 ∷ 0 ∷ 0 ∷ 0 ∷ 24 ∷ 0 ∷ 0 ∷ 0 ∷ 1 ∷ 0 ∷ 0 ∷ 0 ∷ 1 ∷ 0 ∷ 0 ∷ 0 ∷ 1 ∷ 0 ∷ 0 ∷ 0
    ∷ []

abbrev setup : Bytes
setup =
    connection_event ++ seat_event ++ capability_event ++ seat_done_event ++ device_event
    ++ keyboard_event ++ absolute_event ++ keymap_event

abbrev rounds : List Round
rounds =
    (record { arrival = received version_event []; expired = false })
    ∷ (record { arrival = nothing_yet; expired = false })
    ∷ (record { arrival = received setup (pos 9 ∷ []); expired = false })
    ∷ []

abbrev final : Waited → Client
final none = new_client
final (some (r, c, buf, rest)) = c

abbrev unread : Waited → Bytes
unread none = []
unread (some (r, c, buf, rest)) = buf

abbrev unused : Waited → List Round
unused none = []
unused (some (r, c, buf, rest)) = rest

abbrev returned : Waited → Bool
returned none = false
returned (some (ok u, c, buf, rest)) = true
returned (some (raised e, c, buf, rest)) = false

returned-some : (w : Waited) → returned w ≡ true → w ≡ some (ok tt, final w, unread w, unused w)
returned-some none e = cc
returned-some (some (ok u, c, buf, rest)) e = refl
returned-some (some (raised x, c, buf, rest)) e = cc

abbrev shaken : Waited
shaken = handshake machine 20 rounds new_client []

shaken-returned : returned shaken ≡ true
unfolding handshake wait pump_once drain next_frame get dispatch handle_event on_seat_done on_ping
    read_all events_of find_event interface_named unpack_args unpack_arg unpack_at round4
    decode_from step lead pack_single encode encode_char pack_message pack_args pack_arg pack_text
    pack_unsigned pack_signed put send send_bytes announce announce_interfaces put_key get_key
    put_name get_name
shaken-returned = refl

handshake-Harmless_example : Harmless (input machine (keyboard_key 30 1) (final shaken)).0
handshake-Harmless_example =
    handshake-Harmless machine 20 rounds (unused shaken) [] (unread shaken)
      (returned-some shaken shaken-returned) (keyboard_key 30 1) tt

-- A device with a pointer and a button.
abbrev mouse : Device
mouse = record (new_device 3) {
  sub = (codes "ei_pointer", 5) ∷ (codes "ei_button", 6) ∷ [];
  seq = 4;
}

abbrev pointing : Client
pointing = record new_client {
  store = λ place. mouse;
  allocated = 1;
  pointer = some 0;
  last_serial = 9;
}

abbrev arguments : List Arg
arguments = num (pos 272) ∷ num (pos 1) ∷ []

abbrev button_name : Text
button_name = codes "ei_button"

abbrev after : {A : Type 0} → Result A × Client → Client
after r = r.1

abbrev batched : Result (Unit {0}) × Client
batched = framed machine button_name button_req arguments 0 pointing

batched-ok : batched.0 ≡ ok tt
unfolding framed begin_frame end_frame send send_bytes pack_message pack_args pack_arg pack_unsigned
    pack_signed put get_name
batched-ok = refl

framed-sent_example : IsBatch machine button_name button_req arguments 0 pointing batched.1
framed-sent_example =
    framed-sent machine button_name button_req arguments 0 pointing batched.1
      (ap (λ r. (r, batched.1)) batched-ok)

abbrev begun : Result (Unit {0}) × Client
begun = begin_frame machine 0 pointing

begun-ok : begun.0 ≡ ok tt
unfolding begin_frame send send_bytes pack_message pack_args pack_arg pack_unsigned put
begun-ok = refl

button-found : get_name button_name mouse.sub ≡ some 6
unfolding get_name
button-found = refl

negative_button-sent_example :
    (start : Bytes) × Packs machine 3 start_emulating_req (num (pos 9) ∷ num (pos 5) ∷ []) start
    × (input machine (eis_button (negsuc 0) 1) pointing ≡ (raised struct_error, begun.1))
    × (begun.1.sent ≡ start ∷ [])
negative_button-sent_example =
    negative_button-sent machine 0 1 0 6 pointing begun.1 refl button-found
      (ap (λ r. (r, begun.1)) begun-ok)

-- The mouse is given a keyboard, object 4.
abbrev known_mouse : Client
known_mouse = record pointing { objects = (3, device) ∷ []; devices = (3, 0) ∷ [] }

abbrev keyboard_frame : Frame
keyboard_frame = record { obj = 3; opcode = 5; payload = drop 16 keyboard_event }

known_mouse-Wired : Wired known_mouse
unfolding get_name
known_mouse-Wired = (tt, (ground arith, refl), tt, (ground arith, tt))

dispatch-Wired_example : Wired (dispatch machine keyboard_frame known_mouse).1
dispatch-Wired_example = dispatch-Wired machine keyboard_frame known_mouse known_mouse-Wired
