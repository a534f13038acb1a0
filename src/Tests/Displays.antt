-- ===== src/Tests/Displays.antt =====
-- The Wayland connection at concrete inputs.
use py_wayland_auto.Base.{refl, ◌⊎◌, List, [], ◌∷◌, none, Bytes, arith}
use py_wayland_auto.Base.Int.{pos}
use py_wayland_auto.Dict.{get_key, put_key, del_key}
use py_wayland_auto.Framing.{dispatch_all, stream}
use py_wayland_auto.Wire.{little, get, put, pack_unsigned, unpack_at}
use py_wayland_auto.Eis.Messages.{Arg, num}
use py_wayland_auto.Wayland.Messages.{
  uint32, handle, pack_args, pack_arg, pack_message, unpack_args, unpack_arg,
}
use py_wayland_auto.Wayland.Tables.{find_event}
use py_wayland_auto.Wayland.Connection.{
  Connection, new_connection, Frame, Setting, whole, next_frame, alloc_id, send_bytes, send, bind,
  handle_event, dispatch, ask_sync, sync,
}
use py_wayland_auto.Wayland.Connection.Stream.{frame_bytes}
use py_wayland_auto.Wayland.Connection.Sync.{rounds_of, Returned, sync_returns}
use py_wayland_auto.Wayland.Connection.Sent.{IsSent, Torn, send-IsSent}

-- A kernel that takes everything, and an owner that listens to nothing.
abbrev setting : Setting (Unit {0})
setting = record { order = little; taken = λ sent raw fds. whole; listener = λ iface name. none }

abbrev display : Connection (Unit {0})
display = new_connection tt

-- A keymap of 100 bytes in descriptor 5.
abbrev keymap_args : List Arg
keymap_args = num (pos 1) ∷ num (pos 5) ∷ num (pos 100) ∷ []

send-IsSent_example :
    IsSent little 9 0
      (uint32 ∷ handle ∷ uint32 ∷ [])
      keymap_args
      display
      (send setting 9 "zwlr_virtual_keyboard_v1" "keymap" keymap_args display).1
    ⊎ Torn setting 9 0
        (uint32 ∷ handle ∷ uint32 ∷ [])
        keymap_args
        display
        (send setting 9 "zwlr_virtual_keyboard_v1" "keymap" keymap_args display).1
unfolding send send_bytes pack_message pack_args pack_arg pack_unsigned put
send-IsSent_example =
    send-IsSent setting 9 "zwlr_virtual_keyboard_v1" "keymap" keymap_args display 0
      (uint32 ∷ handle ∷ uint32 ∷ []) refl (tt, (tt, (tt, tt))) refl

-- The second object that is bound.
abbrev seated : Connection (Unit {0})
seated = (bind setting 2 7 "wl_seat" 5 display).1

-- The callback is object 2, and its end arrives in two parts, with nothing before each of them.
abbrev done : Frame
done = record { obj = 2; opcode = 0; payload = 7 ∷ 0 ∷ 0 ∷ 0 ∷ [] }

abbrev parts : List Bytes
parts = [] ∷ (2 ∷ 0 ∷ 0 ∷ 0 ∷ 0 ∷ 0 ∷ []) ∷ [] ∷ (12 ∷ 0 ∷ 7 ∷ 0 ∷ 0 ∷ 0 ∷ []) ∷ []

sync_returns_example : Returned 2 (sync setting 2 (rounds_of parts) display [])
unfolding ask_sync alloc_id send send_bytes pack_message pack_args pack_arg pack_unsigned put stream
    frame_bytes next_frame dispatch_all dispatch handle_event find_event unpack_args unpack_arg
    unpack_at get get_key put_key del_key
sync_returns_example =
    sync_returns setting parts (done ∷ []) 2 2 display (ask_sync setting display).1 [] refl
      (omega arith)
      (record { obj_fits = omega arith; size_fits = omega arith; opcode_fits = omega arith }, tt)
      refl refl refl refl
