-- ===== src/Xkb/Symbols.antt =====
-- pywaylandauto/backends/xkb.py: SYMBOL_NAMES and `_symbol_value`.
use py_wayland_auto.Base.{
  ℕ, ◌+◌, ◌*◌, List, [], ◌∷◌, Option, none, some, ltb, leb, ◌==◌, if◌then◌else◌, Text, String,
  codes, text_eq, length,
}
use py_wayland_auto.Spaces.{strip}
use py_wayland_auto.Dict.{get_name}
use py_wayland_auto.Keysyms.{str, unicode_base, lookup}
use py_wayland_auto.Keysyms.Hex.{lower, hex_digit}

abbrev row : String → ℕ → Text × ℕ
row name v = (codes name, v)

abbrev pub symbol_names : List (Text × ℕ)
symbol_names =
    row "exclam" 0x21
    ∷ row "at" 0x40
    ∷ row "numbersign" 0x23
    ∷ row "dollar" 0x24
    ∷ row "percent" 0x25
    ∷ row "asciicircum" 0x5E
    ∷ row "ampersand" 0x26
    ∷ row "asterisk" 0x2A
    ∷ row "parenleft" 0x28
    ∷ row "parenright" 0x29
    ∷ row "minus" 0x2D
    ∷ row "underscore" 0x5F
    ∷ row "equal" 0x3D
    ∷ row "plus" 0x2B
    ∷ row "bracketleft" 0x5B
    ∷ row "braceleft" 0x7B
    ∷ row "bracketright" 0x5D
    ∷ row "braceright" 0x7D
    ∷ row "semicolon" 0x3B
    ∷ row "colon" 0x3A
    ∷ row "apostrophe" 0x27
    ∷ row "quotedbl" 0x22
    ∷ row "grave" 0x60
    ∷ row "asciitilde" 0x7E
    ∷ row "backslash" 0x5C
    ∷ row "bar" 0x7C
    ∷ row "comma" 0x2C
    ∷ row "less" 0x3C
    ∷ row "period" 0x2E
    ∷ row "greater" 0x3E
    ∷ row "slash" 0x2F
    ∷ row "question" 0x3F
    ∷ row "space" 0x20
    ∷ []

-- `[0-9a-fA-F]{1,6}` up to the end, read by `int(…, 16)`.
unfoldable pub hex_number : ℕ → Text → Option ℕ
unfolding hex_digit
hex_number acc [] = some acc
hex_number acc (c ∷ cs) = elim (hex_digit c) [ none ↦ none | some d ↦ hex_number (acc * 16 + d) cs ]

abbrev pub hex_of_six : Text → Option ℕ
hex_of_six [] = none
hex_of_six (c ∷ cs) = if leb (length (c ∷ cs)) 6 then hex_number 0 (c ∷ cs) else none

abbrev behind_plus : Text → Text
behind_plus [] = []
behind_plus (c ∷ cs) = if c == b'+' then cs else c ∷ cs

-- `_UNICODE_RE`, and the number in it.
abbrev pub unicode_of : Text → Option ℕ
unicode_of [] = none
unicode_of (c ∷ cs) = if c == b'U' then hex_of_six (behind_plus cs) else none

-- `UNICODE_BASE + codepoint if codepoint > 0xFF else codepoint`
abbrev pub unicode_keysym : ℕ → ℕ
unicode_keysym codepoint = if ltb 0xFF codepoint then unicode_base + codepoint else codepoint

abbrev pub named_value : Text → Option ℕ
named_value token = elim (get_name (lower token) symbol_names) [
  | some v ↦ some v
  | none ↦ lookup (str token)
]

abbrev pub plain_value : Text → Option ℕ
plain_value (c ∷ []) = some c
plain_value token = named_value token

-- A token without spaces around it.
unfoldable pub stripped_value : Text → Option ℕ
unfolding hex_number get_name lower lookup
stripped_value [] = none
stripped_value token = if text_eq token (codes "NoSymbol") then none else elim (unicode_of token) [
  | some codepoint ↦ some (unicode_keysym codepoint)
  | none ↦ plain_value token
]

-- `_symbol_value`
unfoldable pub symbol_value : Text → Option ℕ
unfolding strip stripped_value
symbol_value token = stripped_value (strip token)

-- The levels that the tokens of a key give: those without a value are passed over.
unfoldable pub values : List Text → List ℕ
unfolding symbol_value
values [] = []
values (token ∷ tokens) = elim (symbol_value token) [
  | some v ↦ v ∷ values tokens
  | none ↦ values tokens
]
