-- ===== src/Xkb/Map.antt =====
-- pywaylandauto/backends/xkb.py: the class `Keymap`, as a dictionary.
use py_wayland_auto.Base.{ℕ, List, [], ◌∷◌, ◌==◌, if◌then◌else◌}

-- `Keymap._levels`: keycode to its keysyms by level, in insertion order.
abbrev pub Keymap : Type 0
Keymap = List (ℕ × List ℕ)

-- `Keymap.add_key`
unfoldable pub add_key : ℕ → List ℕ → Keymap → Keymap
add_key keycode keysyms [] = (keycode, keysyms) ∷ []
add_key keycode keysyms ((k, ls) ∷ m) =
    if k == keycode then (k, keysyms) ∷ m else (k, ls) ∷ add_key keycode keysyms m
