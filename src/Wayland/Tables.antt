-- ===== src/Wayland/Tables.antt =====
-- pywaylandauto/backends/wayland.py: the opcodes and signatures of the requests and events, by
-- interface, and how an entry is found.
use py_wayland_auto.Base.{ℕ, List, [], ◌∷◌, Option, none, some, String, str_eq, ◌==◌, if◌then◌else◌}
use py_wayland_auto.Wayland.Messages.{Kind, uint32, int32, fixed, object_id, new_id, string, handle}

-- A name, an opcode and a signature.
abbrev pub Entry : Type 0
Entry = String × ℕ × List Kind

abbrev pub Tables : Type 0
Tables = List (String × List Entry)

-- REQ_TABLES
abbrev pub requests : Tables
requests =
    ("wl_display", ("sync", 0, new_id ∷ []) ∷ ("get_registry", 1, new_id ∷ []) ∷ [])
    ∷ ("wl_registry", ("bind", 0, uint32 ∷ string ∷ uint32 ∷ new_id ∷ []) ∷ [])
    ∷ (
      "wl_seat",
      ("get_pointer", 0, new_id ∷ [])
          ∷ ("get_keyboard", 1, new_id ∷ [])
          ∷ ("get_touch", 2, new_id ∷ [])
          ∷ ("release", 3, [])
          ∷ [],
    )
    ∷ ("wl_output", ("release", 0, []) ∷ [])
    ∷ (
      "zwlr_virtual_pointer_manager_v1",
      ("create_virtual_pointer", 0, object_id ∷ new_id ∷ [])
          ∷ ("create_virtual_pointer_with_output", 1, object_id ∷ object_id ∷ new_id ∷ [])
          ∷ [],
    )
    ∷ (
      "zwlr_virtual_pointer_v1",
      ("motion", 0, uint32 ∷ fixed ∷ fixed ∷ [])
          ∷ ("motion_absolute", 1, uint32 ∷ fixed ∷ fixed ∷ [])
          ∷ ("button", 2, uint32 ∷ uint32 ∷ uint32 ∷ [])
          ∷ ("axis", 3, uint32 ∷ uint32 ∷ fixed ∷ [])
          ∷ ("frame", 4, [])
          ∷ ("axis_source", 5, uint32 ∷ [])
          ∷ ("axis_stop", 6, uint32 ∷ uint32 ∷ [])
          ∷ ("axis_discrete", 7, uint32 ∷ uint32 ∷ fixed ∷ int32 ∷ [])
          ∷ ("release", 8, [])
          ∷ [],
    )
    ∷ (
      "zwlr_virtual_keyboard_manager_v1",
      ("create_virtual_keyboard", 0, object_id ∷ new_id ∷ []) ∷ [],
    )
    ∷ (
      "zwlr_virtual_keyboard_v1",
      ("keymap", 0, uint32 ∷ handle ∷ uint32 ∷ [])
          ∷ ("key", 1, uint32 ∷ uint32 ∷ uint32 ∷ [])
          ∷ ("modifiers", 2, uint32 ∷ uint32 ∷ uint32 ∷ uint32 ∷ uint32 ∷ [])
          ∷ ("release", 3, [])
          ∷ [],
    )
    ∷ []

-- EVT_TABLES
abbrev pub events : Tables
events =
    (
      "wl_display",
      ("error", 0, object_id ∷ uint32 ∷ string ∷ []) ∷ ("delete_id", 1, uint32 ∷ []) ∷ [],
    )
    ∷ (
      "wl_registry",
      ("global", 0, uint32 ∷ string ∷ uint32 ∷ []) ∷ ("global_remove", 1, uint32 ∷ []) ∷ [],
    )
    ∷ ("wl_callback", ("done", 0, uint32 ∷ []) ∷ [])
    ∷ ("wl_seat", ("capabilities", 0, uint32 ∷ []) ∷ ("name", 1, string ∷ []) ∷ [])
    ∷ ("wl_keyboard", ("keymap", 0, uint32 ∷ handle ∷ uint32 ∷ []) ∷ [])
    ∷ []

abbrev pub table_of : String → Tables → Option (List Entry)
table_of iface [] = none
table_of iface ((i, entries) ∷ rest) = if str_eq i iface then some entries else table_of iface rest

abbrev pub entry_of : String → List Entry → Option (ℕ × List Kind)
entry_of name [] = none
entry_of name ((n, opcode, sig) ∷ rest) =
    if str_eq n name then some (opcode, sig) else entry_of name rest

abbrev pub entry_in : String → Option (List Entry) → Option (ℕ × List Kind)
entry_in name none = none
entry_in name (some entries) = entry_of name entries

-- `REQ_TABLES[iface][name]`, where both are there.
unfoldable pub find_request : String → String → Option (ℕ × List Kind)
find_request iface name = entry_in name (table_of iface requests)

-- `EVT_TABLES.get(iface, {})`
abbrev pub events_of : String → List Entry
events_of iface = elim (table_of iface events) [ none ↦ [] | some entries ↦ entries ]

abbrev pub event_with : ℕ → List Entry → Option (String × List Kind)
event_with opcode [] = none
event_with opcode ((name, k, sig) ∷ rest) =
    if k == opcode then some (name, sig) else event_with opcode rest

-- The loop of `_dispatch`: the first event with the opcode.
unfoldable pub find_event : String → ℕ → Option (String × List Kind)
find_event iface opcode = event_with opcode (events_of iface)
