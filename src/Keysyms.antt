-- ===== src/Keysyms.antt =====
-- pywaylandauto/keysyms.py: names of X11 keysyms.
pub mod Table
pub mod Hex
pub mod Laws
use py_wayland_auto.Base.{
  ℕ, ◌+◌, ◌-◌, ◌≤◌, Bool, true, false, not, ◌&&◌, ◌||◌, List, [], ◌∷◌, map, Option, none, some, leb,
  ltb, ◌==◌, if◌then◌else◌, Text,
}
use py_wayland_auto.Base.Int.{ℤ, pos, negsuc}
use py_wayland_auto.Keysyms.Table.{keysyms, get}
use py_wayland_auto.Keysyms.Hex.{lower, Scan, scan_hex}

-- What callers pass as a keysym: an int (a bool is one), a str, or anything else.
pub data Name : Type 0 where
  int : ℤ → Name
  str : Text → Name
  other : Name

abbrev pub unicode_base : ℕ
unicode_base = 0x01000000

abbrev pub max_keysym : ℕ
max_keysym = 0xFFFFFFFF

-- `0 <= value <= 0xFFFFFFFF`
abbrev pub in_range : ℕ → Option ℕ
in_range v = if leb v max_keysym then some v else none

-- The branch of a key that starts with "0x".
abbrev pub hex_value : Text → Option ℕ
hex_value key = elim (scan_hex Scan.prefixed 0 key) [ none ↦ none | some v ↦ in_range v ]

abbrev pub after_prefix : Text → Option ℕ
after_prefix (a ∷ b ∷ rest) = if a == b'0' && b == b'x' then hex_value rest else none
after_prefix _ = none

-- From `key = name.lower()` on.
unfoldable pub lookup_name : Text → Option ℕ
lookup_name key = elim (get keysyms key) [ some v ↦ some v | none ↦ after_prefix key ]

unfoldable pub lookup : Name → Option ℕ
lookup (int (pos n)) = in_range n
lookup (int (negsuc n)) = none
lookup other = none
lookup (str (c ∷ [])) =
    if leb c 0xFF
    then some c
    else if leb c 0x10FFFF
    then some (unicode_base + c)
    else lookup_name (lower (c ∷ []))
lookup (str name) = lookup_name (lower name)
