-- ===== src/Keysyms/Table.antt =====
-- pywaylandauto/keysyms.py: the dictionary `_KEYSYMS`, in the source's order, with the keys that
-- it repeats under other spellings. `KEYSYMS` is its copy.
use py_wayland_auto.Base.{
  ℕ, ◌+◌, ◌-◌, List, [], ◌∷◌, ◌++◌, map, Text, String, codes, Option, none, some, text_eq,
  if◌then◌else◌,
}

-- One row of a dictionary literal.
abbrev row : String → ℕ → Text × ℕ
row k v = (codes k, v)

abbrev specials : List (Text × ℕ)
specials =
    row "return" 0xFF0D
    ∷ row "enter" 0xFF0D
    ∷ row "tab" 0xFF09
    ∷ row "escape" 0xFF1B
    ∷ row "esc" 0xFF1B
    ∷ row "backspace" 0xFF08
    ∷ row "delete" 0xFFFF
    ∷ row "del" 0xFFFF
    ∷ row "insert" 0xFF63
    ∷ row "print" 0xFF61
    ∷ row "pause" 0xFF13
    ∷ row "menu" 0xFF67
    ∷ []

abbrev navigation : List (Text × ℕ)
navigation =
    row "left" 0xFF51
    ∷ row "up" 0xFF52
    ∷ row "right" 0xFF53
    ∷ row "down" 0xFF54
    ∷ row "home" 0xFF50
    ∷ row "end" 0xFF57
    ∷ row "page_up" 0xFF55
    ∷ row "page_down" 0xFF56
    ∷ row "pgup" 0xFF55
    ∷ row "pgdn" 0xFF56
    ∷ []

-- `{f"f{i}": 0xFFBE + i - 1 for i in range(1, 13)}`
abbrev function_key : ℕ × String → Text × ℕ
function_key (i, name) = row name (0xFFBE + i - 1)

abbrev function_keys : List (Text × ℕ)
function_keys = map function_key (
    (1, "f1")
    ∷ (2, "f2")
    ∷ (3, "f3")
    ∷ (4, "f4")
    ∷ (5, "f5")
    ∷ (6, "f6")
    ∷ (7, "f7")
    ∷ (8, "f8")
    ∷ (9, "f9")
    ∷ (10, "f10")
    ∷ (11, "f11")
    ∷ (12, "f12")
    ∷ [])

abbrev modifiers : List (Text × ℕ)
modifiers =
    row "control_l" 0xFFE3
    ∷ row "control_r" 0xFFE4
    ∷ row "ctrl" 0xFFE3
    ∷ row "control" 0xFFE3
    ∷ row "shift_l" 0xFFE1
    ∷ row "shift_r" 0xFFE2
    ∷ row "shift" 0xFFE1
    ∷ row "alt_l" 0xFFE9
    ∷ row "alt_r" 0xFFEA
    ∷ row "alt" 0xFFE9
    ∷ row "super_l" 0xFFEB
    ∷ row "super_r" 0xFFEC
    ∷ row "super" 0xFFEB
    ∷ row "win" 0xFFEB
    ∷ row "cmd" 0xFFEB
    ∷ row "meta_l" 0xFFE7
    ∷ row "meta_r" 0xFFE8
    ∷ row "meta" 0xFFE7
    ∷ []

abbrev locks_and_punctuation : List (Text × ℕ)
locks_and_punctuation =
    row "caps_lock" 0xFFE5
    ∷ row "num_lock" 0xFF7F
    ∷ row "scroll_lock" 0xFF14
    ∷ row "space" 0x20
    ∷ row "spacebar" 0x20
    ∷ row "plus" 0x2B
    ∷ row "minus" 0x2D
    ∷ row "comma" 0x2C
    ∷ row "period" 0x2E
    ∷ row "semicolon" 0x3B
    ∷ row "slash" 0x2F
    ∷ row "backslash" 0x5C
    ∷ row "quoteleft" 0x60
    ∷ row "quoteright" 0x27
    ∷ []

unfoldable pub keysyms : List (Text × ℕ)
keysyms = specials ++ navigation ++ function_keys ++ modifiers ++ locks_and_punctuation

-- `d.get(key)` on a dictionary literal.
unfoldable pub get : List (Text × ℕ) → Text → Option ℕ
get [] key = none
get ((k, v) ∷ d) key = if text_eq k key then some v else get d key
