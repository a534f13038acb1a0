-- ===== src/Tests/Keys.antt =====
-- Keysyms and keymaps at concrete inputs.
use py_wayland_auto.Base.{ℕ, ◌≡◌, ◌≢◌, refl, List, [], ◌∷◌, codes, some, none, arith, ◌≤◌, true}
use py_wayland_auto.Base.Int.{pos}
use py_wayland_auto.Keysyms.{int, str, lookup, lookup_name, max_keysym}
use py_wayland_auto.Keysyms.Table.{keysyms, get}
use py_wayland_auto.Keysyms.Hex.{lower}
use py_wayland_auto.Keysyms.Laws.{
  lookup-le, lookup-lower, lookup_char, keysym_char, lookup-hex, hex_char,
}
use py_wayland_auto.Xkb.{Keymap, resolve, find_level, us_fallback}
use py_wayland_auto.Xkb.Resolve.{
  HasUniqueKeys, levels_of, at_level, resolve_sound, resolve_complete,
}
use py_wayland_auto.Xkb.Ascii.{is_typed, us_fallback_ascii}

return_keysym : lookup (str (codes "Return")) ≡ some 0xFF0D
unfolding lookup lookup_name get keysyms lower
return_keysym = refl

lookup-le_example : 0xFF0D ≤ max_keysym
lookup-le_example = lookup-le (str (codes "Return")) return_keysym

lookup-lower_example : lookup (str (lower (codes "Escape"))) ≡ lookup (str (codes "Escape"))
lookup-lower_example = lookup-lower (codes "Escape") (λ e. omega (arith, e))

lookup_char_example : (v : ℕ) × (lookup (str (0x20AC ∷ [])) ≡ some v) × (keysym_char v ≡ 0x20AC)
lookup_char_example = lookup_char 0x20AC (omega arith)

lookup-hex_example : lookup (str (codes "0xFF0d")) ≡ lookup (int (pos 0xFF0D))
unfolding hex_char lower
lookup-hex_example =
    lookup-hex (codes "0xFF0d") 15 (15 ∷ 0 ∷ 13 ∷ [])
      (omega arith, (omega arith, (omega arith, (omega arith, tt)))) refl

-- The keys of "a" and of "b".
abbrev two_keys : Keymap
two_keys = (30, 97 ∷ 65 ∷ []) ∷ (48, 98 ∷ 66 ∷ []) ∷ []

two_keys-HasUniqueKeys : HasUniqueKeys two_keys
unfolding HasUniqueKeys levels_of
two_keys-HasUniqueKeys = (refl, (refl, tt))

capital_b : resolve two_keys 66 ≡ some (48, 1)
unfolding resolve find_level
capital_b = refl

resolve_sound_example :
    (vs : List ℕ) × (levels_of 48 two_keys ≡ some vs) × (at_level vs 1 ≡ some 66)
resolve_sound_example = resolve_sound two_keys 66 two_keys-HasUniqueKeys capital_b

resolve_complete_example : resolve two_keys 66 ≢ none
unfolding levels_of
resolve_complete_example = resolve_complete two_keys 66 48 1 (98 ∷ 66 ∷ []) refl refl

us_fallback_ascii_example : is_typed (resolve us_fallback 65) ≡ true
us_fallback_ascii_example = us_fallback_ascii 65 (omega arith) (omega arith)
