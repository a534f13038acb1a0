-- ===== src/Eis/Client/Wired/Events.antt =====
-- Each event handler keeps the devices wired.
use py_wayland_auto.Base.{
  ℕ, Bool, true, false, List, [], ◌∷◌, ◌++◌, Option, none, some, ◌==◌, if◌then◌else◌, Bytes,
}
use py_wayland_auto.Base.Int.{ℤ, pos}
use py_wayland_auto.Outcome.{Result, ok, raised, eis_error}
use py_wayland_auto.Stateful.{bind_with, lift}
use py_wayland_auto.Utf8.{decode}
use py_wayland_auto.Eis.Messages.{Kind, Arg, num, real, text, unpack_args, pack_message}
use py_wayland_auto.Eis.Tables.{
  handshake_connection, connection_disconnected, connection_seat, connection_ping, seat_destroyed,
  seat_capability, seat_done, seat_device, device_destroyed, device_name, device_device_type,
  device_region, device_interface, keyboard_keymap, keyboard_modifiers, handshake_interface_version,
  events_of, find_event, bind_req, done_req, Interface, Event, Request, handshake_handshake_version,
}
use py_wayland_auto.Eis.Client.{Client, Machine, get_key, put_key, send, send_bytes}
use py_wayland_auto.Eis.Client.Handlers.{
  interface_of, on_device, on_interface, on_device_name, on_device_type, on_region, on_keymap,
  on_handshake_version, on_connection, on_seat, on_capability, on_disconnected, on_modifiers,
  on_destroyed, read_all, handle_event, dispatch, keymap_of, found_event, with_fds, on_seat_done,
  on_ping, bind_seat,
}
use py_wayland_auto.Eis.Frames.{Frame}
use py_wayland_auto.Eis.Client.Wired.{
  Wired, Keeps, bind-Keeps, add_device-Wired, change_device-Keeps, join_interface-Keeps,
}

module _ (m : Machine) where
  pub send-Keeps : (obj : ℕ) (req : Request) (args : List Arg) → Keeps (send m obj req args)
  unfolding send
  send-Keeps obj req args =
      bind-Keeps (lift (pack_message m.order m.floats obj req.0 req.1 args)) _ (λ c w. w)
        send_bytes-Keeps
    where
      send_bytes-Keeps : (raw : Bytes) → Keeps (send_bytes m raw)
      send_bytes-Keeps raw c w = go (m.accepts c.sent raw)
        where
          go :
              (b : Bool)
              → Wired
                  (if◌then◌else◌ {A = Result (Unit {0}) × Client} b
                    (ok tt, record c { sent = raw ∷ c.sent })
                    (raised eis_error, c)).1
          go true = w
          go false = w

  seat_done-Keeps : (args : List Arg) → Keeps (on_seat_done m args)
  unfolding on_seat_done
  seat_done-Keeps [] c w = go c.seat_id
    where
      go :
          (o : Option ℕ)
          → Wired (bind_seat m o c.seat_mask (record c { bound_mask = some c.seat_mask })).1
      go none = w
      go (some id) =
          send-Keeps id bind_req (num (pos c.seat_mask) ∷ [])
            (record c { bound_mask = some c.seat_mask }) w
  seat_done-Keeps (a ∷ args) c w = w

  ping-Keeps : (args : List Arg) → Keeps (on_ping m args)
  unfolding on_ping
  ping-Keeps (num (pos id) ∷ num (pos version) ∷ []) c w =
      send-Keeps id done_req [] (record c { objects = put_key id Interface.pingpong c.objects }) w
  ping-Keeps [] c w = w
  ping-Keeps args c w = w

  device-Keeps : (args : List Arg) → Keeps (on_device args)
  device-Keeps (num (pos id) ∷ num (pos version) ∷ []) c w =
      add_device-Wired id (record c { objects = put_key id Interface.device c.objects }) w
  device-Keeps [] c w = w
  device-Keeps args c w = w

  interface-Keeps : (obj : ℕ) (args : List Arg) → Keeps (on_interface obj args)
  interface-Keeps obj (num (pos id) ∷ text name ∷ num (pos version) ∷ []) c w =
      join_interface-Keeps obj id name c w
  interface-Keeps obj [] c w = w
  interface-Keeps obj args c w = w

  name-Keeps : (obj : ℕ) (args : List Arg) → Keeps (on_device_name obj args)
  name-Keeps obj (text name ∷ []) c w =
      change_device-Keeps obj (λ d. record d { name = name }) (λ n d h. h) c w
  name-Keeps obj [] c w = w
  name-Keeps obj args c w = w

  type-Keeps : (obj : ℕ) (args : List Arg) → Keeps (on_device_type obj args)
  type-Keeps obj (num (pos kind) ∷ []) c w =
      change_device-Keeps obj (λ d. record d { device_type = kind }) (λ n d h. h) c w
  type-Keeps obj [] c w = w
  type-Keeps obj args c w = w

  region-Keeps : (obj : ℕ) (args : List Arg) → Keeps (on_region obj args)
  region-Keeps obj (num (pos x) ∷ num (pos y) ∷ num (pos u) ∷ num (pos v) ∷ real scale ∷ []) c w =
      change_device-Keeps obj (λ d. record d { regions = d.regions ++ (x, y, u, v, scale) ∷ [] })
        (λ n d h. h) c w
  region-Keeps obj [] c w = w
  region-Keeps obj args c w = w

  keymap-Keeps : (args : List Arg) → Keeps (on_keymap m args)
  keymap-Keeps (num (pos kind) ∷ num (pos size) ∷ num fd ∷ []) c w =
      go (read_all size (m.pieces fd) [])
    where
      go : (r : Result Bytes) → Wired (keymap_of kind r c)
      go (raised e) = w
      go (ok []) = w
      go (ok (b ∷ bs)) = xkb (kind == 1)
        where
          xkb :
              (x : Bool)
              → Wired (if x then record c { keymap_text = some (decode (b ∷ bs)) } else c)
          xkb true = w
          xkb false = w
  keymap-Keeps [] c w = w
  keymap-Keeps args c w = w

  version-Keeps : (args : List Arg) → Keeps (on_handshake_version args)
  version-Keeps (num (pos v) ∷ []) c w = w
  version-Keeps [] c w = w
  version-Keeps args c w = w

  connection-Keeps : (args : List Arg) → Keeps (on_connection args)
  connection-Keeps (num (pos serial) ∷ num (pos id) ∷ num (pos version) ∷ []) c w = w
  connection-Keeps [] c w = w
  connection-Keeps args c w = w

  seat-Keeps : (args : List Arg) → Keeps (on_seat args)
  seat-Keeps (num (pos id) ∷ num (pos version) ∷ []) c w = w
  seat-Keeps [] c w = w
  seat-Keeps args c w = w

  capability-Keeps : (args : List Arg) → Keeps (on_capability args)
  capability-Keeps (num (pos mask) ∷ text name ∷ []) c w = w
  capability-Keeps [] c w = w
  capability-Keeps args c w = w

  disconnected-Keeps : (args : List Arg) → Keeps (on_disconnected m args)
  disconnected-Keeps (a ∷ b ∷ d ∷ []) c w = w
  disconnected-Keeps [] c w = w
  disconnected-Keeps args c w = w

  modifiers-Keeps : (args : List Arg) → Keeps (on_modifiers m args)
  modifiers-Keeps (num (pos serial) ∷ num (pos a) ∷ num (pos b) ∷ num (pos d) ∷ num (pos e) ∷ []) c
        w =
      w
  modifiers-Keeps [] c w = w
  modifiers-Keeps args c w = w

  destroyed-Keeps : (args : List Arg) → Keeps (on_destroyed m args)
  destroyed-Keeps (num (pos serial) ∷ []) c w = w
  destroyed-Keeps [] c w = w
  destroyed-Keeps args c w = w

  event-Keeps : (e : Event) (obj : ℕ) (args : List Arg) → Keeps (handle_event m e obj args)
  unfolding handle_event
  event-Keeps handshake_handshake_version obj args = version-Keeps args
  event-Keeps handshake_connection obj args = connection-Keeps args
  event-Keeps connection_disconnected obj args = disconnected-Keeps args
  event-Keeps connection_seat obj args = seat-Keeps args
  event-Keeps connection_ping obj args = ping-Keeps args
  event-Keeps seat_destroyed obj args = destroyed-Keeps args
  event-Keeps seat_capability obj args = capability-Keeps args
  event-Keeps seat_done obj args = seat_done-Keeps args
  event-Keeps seat_device obj args = device-Keeps args
  event-Keeps device_destroyed obj args = destroyed-Keeps args
  event-Keeps device_name obj args = name-Keeps obj args
  event-Keeps device_device_type obj args = type-Keeps obj args
  event-Keeps device_region obj args = region-Keeps obj args
  event-Keeps device_interface obj args = interface-Keeps obj args
  event-Keeps keyboard_keymap obj args = keymap-Keeps args
  event-Keeps keyboard_modifiers obj args = modifiers-Keeps args
  event-Keeps handshake_interface_version obj args = λ c w. w
  event-Keeps e obj args = λ c w. w

  found_event-Keeps :
      (obj : ℕ) (payload : Bytes) (found : Option (Event × List Kind))
      → Keeps (found_event m obj payload found)
  found_event-Keeps obj payload none c w = w
  found_event-Keeps obj payload (some (e, sig)) c w =
      go (unpack_args m.order m.floats sig payload 0 c.pending_fds)
    where
      go :
          (r : Result (List Arg × ℕ × List ℤ))
          → Wired (bind_with (r, c) (λ read. with_fds m e obj read)).1
      go (raised x) = w
      go (ok (args, p, fds)) = event-Keeps e obj args (record c { pending_fds = fds }) w

  -- Whatever message arrives, whether it is handled or raises: the devices that the client keeps
  -- for the keyboard, the pointer and the absolute pointer are objects of its own, and each has the
  -- part that it is kept for.
  pub dispatch-Wired : (f : Frame) (c : Client) → Wired c → Wired (dispatch m f c).1
  unfolding dispatch
  dispatch-Wired f c w =
      found_event-Keeps f.obj f.payload
        (find_event f.opcode (events_of (interface_of m (get_key f.obj c.objects)))) c w
