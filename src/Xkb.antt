-- ===== src/Xkb.antt =====
-- pywaylandauto/backends/xkb.py: the keymap, the US table and the resolver; the parser of xkb text is
-- in Parse.
pub mod Map
pub mod Scan
pub mod Symbols
pub mod Parse
pub mod Rows
pub mod Resolve
pub mod Given
pub mod Ascii
use py_wayland_auto.Base.{
  ℕ, ◌+◌, ◌-◌, Bool, true, false, not, List, [], ◌∷◌, Option, none, some, ◌==◌, if◌then◌else◌,
  codes, text_eq, String,
}
use py_wayland_auto.Keysyms.{str, lookup}
unfoldable pub use Map.{Keymap, add_key}
use Parse.{parse_keymap_text}
use Rows.{us_rows}

-- `for level, value in enumerate(levels)`
unfoldable pub find_level : ℕ → ℕ → List ℕ → Option ℕ
find_level keysym level [] = none
find_level keysym level (value ∷ rest) = elim (value == keysym) [
  | true ↦ some level
  | false ↦ find_level keysym (level + 1) rest
]

-- `Keymap.resolve`
unfoldable pub resolve : Keymap → ℕ → Option (ℕ × ℕ)
resolve [] keysym = none
resolve ((keycode, levels) ∷ m) keysym = elim (find_level keysym 0 levels) [
  | some level ↦ some (keycode, level)
  | none ↦ resolve m keysym
]

-- One round of the loop of `us_fallback`.
unfoldable pub add_entry : ℕ × String × String → Keymap → Keymap
unfolding add_key
add_entry (keycode, base, shifted) m = elim (lookup (str (codes base))) [
  | none ↦ m
  | some base_sym ↦
      (if text_eq (codes shifted) (codes base)
        then add_key keycode (base_sym ∷ []) m
        else elim (lookup (str (codes shifted))) [
          | some shifted_sym ↦ add_key keycode (base_sym ∷ shifted_sym ∷ []) m
          | none ↦ add_key keycode (base_sym ∷ []) m
        ])
]

unfoldable pub add_entries : List (ℕ × String × String) → Keymap → Keymap
add_entries [] m = m
add_entries (e ∷ es) m = add_entries es (add_entry e m)

-- `us_fallback()`; the cache of the source returns the same table.
unfoldable pub us_fallback : Keymap
us_fallback = add_entries us_rows []

abbrev pub is_empty : Keymap → Bool
is_empty [] = true
is_empty (_ ∷ _) = false

-- `parse_keymap_text(keymap_text) if keymap_text else Keymap()`
abbrev pub parsed : Option String → Keymap
parsed none = []
parsed (some text) = if text_eq (codes text) [] then [] else parse_keymap_text (codes text)

-- The inner `resolve` of `build_resolver`.
abbrev pub resolve_with : Keymap → ℕ → Option (ℕ × ℕ)
resolve_with m keysym = elim (resolve m keysym) [
  | some found ↦ some found
  | none ↦ resolve us_fallback keysym
]

-- `build_resolver`
unfoldable pub build_resolver : Option String → ℕ → Option (ℕ × ℕ)
build_resolver text keysym =
    let m = parsed text in if is_empty m then resolve us_fallback keysym else resolve_with m keysym
