-- ===== src/Keysyms/Hex.antt =====
-- pywaylandauto/keysyms.py, `lookup`: what it uses of `str.lower` and of `int(key, 16)`.
-- Both are written for ASCII texts, and the Kelvin sign, the one other character whose lower case
-- is an ASCII letter. A digit or a space outside ASCII, which `int` reads too, is refused here.
use py_wayland_auto.Base.{
  ℕ, ◌+◌, ◌-◌, ◌*◌, Bool, true, ◌&&◌, ◌||◌, [], ◌∷◌, map, Option, none, some, leb, ◌==◌,
  if◌then◌else◌, Text,
}

unfoldable pub lower_char : ℕ → ℕ
lower_char c = if leb b'A' c && leb c b'Z' then c + 32 else if c == 0x212A then b'k' else c

-- `name.lower()`
unfoldable pub lower : Text → Text
unfolding lower_char
lower = map lower_char

unfoldable pub hex_digit : ℕ → Option ℕ
hex_digit c =
    if leb b'0' c && leb c b'9'
    then some (c - b'0')
    else if leb b'a' c && leb c b'f'
    then some (c - b'a' + 10)
    else if leb b'A' c && leb c b'F'
    then some (c - b'A' + 10)
    else none

abbrev pub is_space : ℕ → Bool
is_space c = (leb 9 c && leb c 13) || c == 32

unfoldable pub all_space : Text → Bool
all_space [] = true
all_space (c ∷ cs) = is_space c && all_space cs

-- Where the scan stands: behind the prefix, behind a digit, behind an underscore.
pub data Scan : Type 0 where
  prefixed after_digit after_underscore : Scan

-- An underscore may stand between two digits or behind the prefix; the text may end in spaces.
abbrev pub scan_other : Scan → Text → ℕ → ℕ → Option ℕ → Option ℕ
scan_other prefixed rest acc c next = if c == b'_' then next else none
scan_other after_digit rest acc c next =
    if c == b'_' then next else if is_space c && all_space rest then some acc else none
scan_other after_underscore rest acc c next = none

unfoldable pub scan_hex : Scan → ℕ → Text → Option ℕ
unfolding hex_digit all_space
scan_hex after_digit acc [] = some acc
scan_hex prefixed acc [] = none
scan_hex after_underscore acc [] = none
scan_hex state acc (c ∷ cs) = elim (hex_digit c) [
  | some d ↦ scan_hex after_digit (acc * 16 + d) cs
  | none ↦ (let next = scan_hex after_underscore acc cs in scan_other state cs acc c next)
]
