-- ===== src/Xkb/Parse.antt =====
-- pywaylandauto/backends/xkb.py: `parse_keymap_text`.
use py_wayland_auto.Base.{
  ℕ, ◌+◌, ◌-◌, ◌*◌, List, [], ◌∷◌, none, some, ltb, if◌then◌else◌, Text, codes, length,
}
use py_wayland_auto.Outcome.{Result, ok, raised, index_error, value_error, ◌>>=◌}
use py_wayland_auto.Spaces.{split_on}
use py_wayland_auto.Dict.{put_name, get_name}
use py_wayland_auto.Xkb.Map.{Keymap, add_key}
use py_wayland_auto.Xkb.Scan.{
  keycode_at, alias_at, key_at, matches, finditer, before, behind, split_commas,
}
use py_wayland_auto.Xkb.Symbols.{values}

-- `int(digits)`; above 4300 digits Python raises ValueError.
unfoldable pub decimal : ℕ → Text → ℕ
decimal acc [] = acc
decimal acc (c ∷ cs) = decimal (acc * 10 + (c - b'0')) cs

abbrev pub number : Text → Result ℕ
number digits = if ltb 4300 (length digits) then raised value_error else ok (decimal 0 digits)

abbrev pub Names : Type 0
Names = List (Text × ℕ)

-- `aliases`: every name for itself, and then the aliases.
unfoldable pub own_names : List (Text × Text) → List (Text × Text) → List (Text × Text)
own_names [] aliases = aliases
own_names ((name, digits) ∷ rest) aliases = own_names rest (put_name name name aliases)

unfoldable pub alias_names : List (Text × Text) → List (Text × Text) → List (Text × Text)
alias_names [] aliases = aliases
alias_names ((name, target) ∷ rest) aliases = alias_names rest (put_name name target aliases)

-- `name_to_keycode`
unfoldable pub number_names : List (Text × Text) → Names → Result Names
unfolding decimal
number_names [] names = ok names
number_names ((name, digits) ∷ rest) names =
    number digits >>= λ v. number_names rest (put_name name v names)

-- A name without a number has that of its target.
abbrev pub with_alias : Text → Text → Names → Names
with_alias alias target names = elim (get_name alias names) [
  | some _ ↦ names
  | none ↦ elim (get_name target names) [ none ↦ names | some v ↦ put_name alias v names ]
]

unfoldable pub follow_aliases : List (Text × Text) → Names → Names
follow_aliases [] names = names
follow_aliases ((alias, target) ∷ rest) names = follow_aliases rest (with_alias alias target names)

-- The keycodes section.
unfoldable pub names_of : Text → Result Names
unfolding own_names alias_names number_names follow_aliases matches put_name get_name
names_of keycodes =
    let numbered = finditer keycode_at keycodes in
    let aliases = alias_names (finditer alias_at keycodes) (own_names numbered []) in
    number_names numbered [] >>= λ names. ok (follow_aliases aliases names)

-- `if levels: keymap.add_key(keycode, levels)`
abbrev pub add_levels : ℕ → List ℕ → Keymap → Keymap
add_levels keycode [] m = m
add_levels keycode (v ∷ vs) m = add_key keycode (v ∷ vs) m

-- A round of the loop over the keys.
abbrev pub add_symbols : Names → Text → Text → Keymap → Keymap
add_symbols names name body m = elim (get_name name names) [
  | none ↦ m
  | some keycode ↦ add_levels keycode (values (split_commas body)) m
]

unfoldable pub add_all : Names → List (Text × Text) → Keymap → Keymap
unfolding split_on values add_key get_name
add_all names [] m = m
add_all names ((name, body) ∷ rest) m = add_all names rest (add_symbols names name body m)

-- `text.split("xkb_keycodes")[1].split("xkb_types")[0]`
unfoldable pub keycodes_section : Text → Result Text
unfolding before behind
keycodes_section text = elim (behind (codes "xkb_keycodes") text) [
  | none ↦ raised index_error
  | some rest ↦ ok (before (codes "xkb_types") (before (codes "xkb_keycodes") rest))
]

-- What follows "xkb_symbols", if it is there, up to "xkb_geometry".
unfoldable pub symbols_section : Text → Text
unfolding before behind
symbols_section text = elim (behind (codes "xkb_symbols") text) [
  | none ↦ []
  | some rest ↦ before (codes "xkb_geometry") (before (codes "xkb_symbols") rest)
]

unfoldable pub read_keymap : Text → Result Keymap
unfolding keycodes_section symbols_section names_of add_all matches
read_keymap text = do
  keycodes ← keycodes_section text
  names ← names_of keycodes
  ok (add_all names (finditer key_at (symbols_section text)) [])

-- `except (IndexError, ValueError)`
abbrev pub keymap_or_empty : Result Keymap → Keymap
keymap_or_empty (ok m) = m
keymap_or_empty (raised e) = []

unfoldable pub parse_keymap_text : Text → Keymap
unfolding read_keymap
parse_keymap_text text = keymap_or_empty (read_keymap text)
