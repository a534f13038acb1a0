-- ===== src/Tests/Maps.antt =====
-- A keymap text, that of the repository's tests.
use py_wayland_auto.Base.{◌≡◌, refl, ◌⊎◌, [], ◌∷◌, some, ◌++◌, Text, String, codes}
use py_wayland_auto.Xkb.{Keymap, find_level, resolve, us_fallback, parsed, build_resolver}
use py_wayland_auto.Xkb.Resolve.{levels_of}
use py_wayland_auto.Xkb.Given.{
  last_given, parse_keymap_text-last_given, Gives, GivesNone, build_resolver-Gives,
}
use py_wayland_auto.Xkb.Parse.{
  Names, names_of, keycodes_section, symbols_section, parse_keymap_text,
}
use py_wayland_auto.Xkb.Scan.{keycode_at, alias_at, key_at, finditer}
use py_wayland_auto.Spaces.{is_space, lstrip, rstrip}
use py_wayland_auto.Keysyms.{lookup_name}
use py_wayland_auto.Keysyms.Table.{get, keysyms}

abbrev keycodes_text : Text
keycodes_text =
    codes " \"evdev+aliases(qwerty)\" {\n    minimum = 8; maximum = 255;\n"
    ++ codes
        "    <ESC> = 9;\n    <AE01> = 10;\n    <AD01> = 38;\n    <TLDE> = 49;\n    alias <HZTG> = <TLDE>;\n};\n"

abbrev types_text : Text
types_text =
    codes
      "xkb_types \"complete\" {\n    type \"TWO_LEVEL\" { modifiers = Shift; map[Shift] = Level2; };\n};\n"

abbrev symbols_text : Text
symbols_text =
    codes "xkb_symbols \"pc+us\" {\n    key <AE01> { [ q, Q ] };\n    key <AD01> { [ a, A ] };\n"
    ++ codes
        "    key <HZTG> { [ grave, asciitilde, U+4E00 ] };\n    key <ESC> { [ Escape ] };\n};\n};\n"

abbrev keymap_text : Text
keymap_text = codes "xkb_keymap {\nxkb_keycodes" ++ (keycodes_text ++ (types_text ++ symbols_text))

abbrev sample : Keymap
sample =
    (10, b'q' ∷ b'Q' ∷ [])
    ∷ (38, b'a' ∷ b'A' ∷ [])
    ∷ (49, 0x60 ∷ 0x7E ∷ 0x01004E00 ∷ [])
    ∷ (9, 0xFF1B ∷ [])
    ∷ []

parse-sample : parse_keymap_text keymap_text ≡ sample
unfolding parse_keymap_text keycode_at is_space key_at alias_at lstrip rstrip lookup_name get
    keysyms
parse-sample = refl

abbrev names : Names
names =
    (codes "ESC", 9)
    ∷ (codes "AE01", 10)
    ∷ (codes "AD01", 38)
    ∷ (codes "TLDE", 49)
    ∷ (codes "HZTG", 49)
    ∷ []

parse_keymap_text-last_given_example :
    levels_of 49 (parse_keymap_text keymap_text)
    ≡ last_given names 49 (finditer key_at (symbols_section keymap_text))
unfolding keycodes_section names_of keycode_at is_space alias_at
parse_keymap_text-last_given_example =
    parse_keymap_text-last_given keymap_text keycodes_text names 49 refl refl

abbrev small : String
small = "xkb_keycodes { <AD01> = 38; } xkb_types xkb_symbols { key <AD01> { [ a, A ] }; }"

build_resolver-Gives_example :
    Gives (parsed (some small)) b'A' 38 1
    ⊎ (GivesNone (parsed (some small)) b'A' × Gives us_fallback b'A' 38 1)
unfolding build_resolver parse_keymap_text keycode_at is_space key_at alias_at lstrip rstrip
    lookup_name get keysyms resolve find_level
build_resolver-Gives_example = build_resolver-Gives (some small) b'A' 38 1 refl
