-- ===== src/Xkb/Ascii.antt =====
-- pywaylandauto/backends/xkb.py: which printable ASCII characters the US table types.
use py_wayland_auto.Base.{
  ℕ, zero, suc, ◌+◌, ◌≤◌, ◌<◌, ◌≡◌, refl, inl, inr, Bool, true, false, not, ◌||◌, Option, none,
  some, leb, ◌==◌, arith, Bool-cases,
}
use py_wayland_auto.Keysyms.{lookup, lookup_name}
use py_wayland_auto.Keysyms.Table.{keysyms, get}
use py_wayland_auto.Keysyms.Hex.{lower}
use py_wayland_auto.Xkb.Rows.{us_rows}
use py_wayland_auto.Xkb.{Keymap, add_entry, add_entries, us_fallback, resolve, find_level}

-- `resolve` finds a key at level 0 or 1.
abbrev pub is_typed : Option (ℕ × ℕ) → Bool
is_typed none = false
is_typed (some (_, level)) = leb level 1

-- The grave accent and the tilde.
abbrev pub is_grave_key : ℕ → Bool
is_grave_key c = c == 0x60 || c == 0x7E

abbrev same : Bool → Bool → Bool
same true b = b
same false b = not b

-- The claim for `count` many characters from `from` on.
all_agree : Keymap → ℕ → ℕ → Bool
all_agree m zero from = true
all_agree m (suc count) from = elim (same (is_typed (resolve m from)) (not (is_grave_key from))) [
  | true ↦ all_agree m count (from + 1)
  | false ↦ false
]

same_eq : (a b : Bool) → same a b ≡ true → a ≡ b
same_eq true b h = ground arith
same_eq false b h = ground arith

all_agree-lt :
    (m : Keymap) (count from c : ℕ)
    → all_agree m count from ≡ true
    → from ≤ c
    → c < from + count
    → is_typed (resolve m c) ≡ not (is_grave_key c)
unfolding all_agree
all_agree-lt m zero from c h lo hi = absurd (omega arith)
all_agree-lt m (suc count) from c h lo hi = elim (Bool-cases (from == c)) [
  | inl here ↦ agree_here m count from c h here
  | inr further ↦ all_agree-lt m count (from + 1) c (ground arith) (ground arith) (omega arith)
]
  where
    agree_here :
        (m : Keymap) (count from c : ℕ)
        → all_agree m (suc count) from ≡ true
        → (from == c) ≡ true
        → is_typed (resolve m c) ≡ not (is_grave_key c)
    agree_here m count from c h here =
        let e : from ≡ c = ground arith in rw (← e) (same_eq _ _ (ground arith))

ascii_agrees : all_agree us_fallback 95 32 ≡ true
unfolding all_agree resolve find_level us_fallback add_entries us_rows add_entry lookup lookup_name
    get keysyms lower
ascii_agrees = refl

-- Of the printable ASCII characters the US table types every one, with Shift at most, but the
-- grave accent and the tilde, which it does not type.
pub us_fallback_ascii :
    (c : ℕ) → 32 ≤ c → c < 127 → is_typed (resolve us_fallback c) ≡ not (is_grave_key c)
us_fallback_ascii c lo hi = all_agree-lt us_fallback 95 32 c ascii_agrees lo hi
