-- ===== src/Eis/Client.antt =====
-- pywaylandauto/backends/eis.py: the state of an `EisClient`, what it sends, and its input methods.
-- Device objects stand in a store, since `_devices` and the fields that name a device share them.
-- What the socket and the operating system answer is a parameter.
pub mod Handlers
pub mod Handshake
pub mod Input
pub mod Parts
pub mod Wired
pub mod Ready
pub mod Harmless
pub mod Safe
pub mod Framed
use Prim.Native.Nat.{bit_or}
use py_wayland_auto.Base.{
  ℕ, ◌+◌, ◌==◌, Bool, true, false, List, [], ◌∷◌, ◌++◌, Option, none, some, if◌then◌else◌, Text,
  Bytes, text_eq, codes, String,
}
use py_wayland_auto.Base.Int.{ℤ, pos}
use py_wayland_auto.Outcome.{
  Exn, Result, ok, raised, eis_error, os_error, key_error, attribute_error,
}
use py_wayland_auto.Stateful.{Stateful, pure, raise, ◌>>=◌, ◌>>◌, gets, change, lift, catch}
use py_wayland_auto.Wire.{ByteOrder, Float, Floats}
use py_wayland_auto.Eis.Messages.{Kind, Arg, num, real, pack_message}
unfoldable pub use py_wayland_auto.Dict.{put_key, get_key, put_name, get_name}
use py_wayland_auto.Eis.Tables.{
  Interface, Request, start_emulating_req, stop_emulating_req, frame_req,
}

-- `EisDevice`
pub record Device : Type 0 where
  pub object_id : ℕ
  pub name : Text
  pub device_type : ℕ
  pub regions : List (ℕ × ℕ × ℕ × ℕ × Float)
  -- `sub`, by the interface's name.
  pub sub : List (Text × ℕ)
  pub seq : ℕ

abbrev pub new_device : ℕ → Device
new_device id = record {
  object_id = id;
  name = [];
  device_type = 1;
  regions = [];
  sub = [];
  seq = 0;
}

-- `EisClient`; a device is named by its place in the store. The buffer is in Frames. The messages
-- that were handed to the socket are kept, the newest first.
pub record Client : Type 0 where
  pub pending_fds : List ℤ
  pub objects : List (ℕ × Interface)
  pub store : ℕ → Device
  pub allocated : ℕ
  pub devices : List (ℕ × ℕ)
  pub keyboard : Option ℕ
  pub pointer : Option ℕ
  pub pointer_abs : Option ℕ
  pub connection_id : Option ℕ
  pub seat_id : Option ℕ
  pub seat_mask : ℕ
  pub bound_mask : Option ℕ
  pub last_serial : ℕ
  pub server_version : Option ℕ
  pub keymap_text : Option Text
  pub modifiers : Option (List ℕ)
  pub sent : List Bytes

-- `EisClient.__init__`
abbrev pub new_client : Client
new_client = record {
  pending_fds = [];
  objects = [];
  store = λ place. new_device 0;
  allocated = 0;
  devices = [];
  keyboard = none;
  pointer = none;
  pointer_abs = none;
  connection_id = none;
  seat_id = none;
  seat_mask = 0;
  bound_mask = none;
  last_serial = 0;
  server_version = none;
  keymap_text = none;
  modifiers = none;
  sent = [];
}

-- The machine and the socket: whether `sendall` goes through, by what was sent before; the pieces
-- that reading a descriptor gives; the clock in microseconds; and comparisons of a float with an
-- integer.
pub record Machine : Type 0 where
  pub order : ByteOrder
  pub floats : Floats
  pub accepts : List Bytes → Bytes → Bool
  pub pieces : ℤ → List (Result Bytes)
  pub monotonic_us : List Bytes → ℕ
  pub int_le_float : ℕ → Float → Bool
  pub float_lt_int : Float → ℕ → Bool

abbrev pub C : Type 0 → Type 0
C = Stateful Client

-- A device object is changed in place.
abbrev pub update_device : ℕ → (Device → Device) → Client → Client
update_device place f c = record c {
  store = λ at. (if at == place then f (c.store at) else c.store at);
}

module _ (m : Machine) where
  -- `sendall`, with OSError made an EisError.
  unfoldable pub send_bytes : Bytes → C (Unit {0})
  send_bytes raw c =
      if m.accepts c.sent raw
      then (ok tt, record c { sent = raw ∷ c.sent })
      else (raised eis_error, c)

  -- `_send`
  unfoldable pub send : ℕ → Request → List Arg → C (Unit {0})
  unfolding send_bytes
  send obj req args =
      lift (pack_message m.order m.floats obj req.0 req.1 args) >>= λ raw. send_bytes raw

  abbrev pub serial_arg : Client → Arg
  serial_arg c = num (pos c.last_serial)

  -- `_begin_frame`, with `next_sequence`.
  unfoldable pub begin_frame : ℕ → C (Unit {0})
  unfolding send
  begin_frame place = do
    change (update_device place (λ d. record d { seq = d.seq + 1 }))
    args ← gets (λ c. serial_arg c ∷ num (pos (c.store place).seq) ∷ [])
    obj ← gets (λ c. (c.store place).object_id)
    send obj start_emulating_req args

  -- `_end_frame`
  unfoldable pub end_frame : ℕ → C (Unit {0})
  unfolding send
  end_frame place = do
    obj ← gets (λ c. (c.store place).object_id)
    args ← gets (λ c. serial_arg c ∷ num (pos (m.monotonic_us c.sent)) ∷ [])
    send obj frame_req args
    last ← gets (λ c. serial_arg c ∷ [])
    send obj stop_emulating_req last
