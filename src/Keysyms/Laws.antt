-- ===== src/Keysyms/Laws.antt =====
-- pywaylandauto/keysyms.py: what `lookup` returns.
use py_wayland_auto.Base.{
  ℕ, ◌+◌, ◌-◌, ◌*◌, ◌≤◌, ◌<◌, ◌≡◌, refl, sym, ap, ◌∙◌, ◌≢◌, inl, inr, Bool, true, ◌&&◌, List, [],
  ◌∷◌, map, Option, none, some, arith, leb, if◌then◌else◌, Text, All, length, Option-cases,
  Bool-cases,
}
use py_wayland_auto.Base.Int.{pos}
use py_wayland_auto.Keysyms.{
  Name, int, str, other, unicode_base, max_keysym, in_range, hex_value, after_prefix, lookup_name,
  lookup,
}
use py_wayland_auto.Keysyms.Table.{keysyms, get}
use py_wayland_auto.Keysyms.Hex.{lower_char, lower, hex_digit, prefixed, after_digit, scan_hex}

-- All values of a dictionary lie below a bound.
abbrev is_below : ℕ → List (Text × ℕ) → Bool
is_below n [] = true
is_below n ((k, v) ∷ d) = leb v n && is_below n d

get-le :
    (n : ℕ) (d : List (Text × ℕ)) (key : Text) {v : ℕ}
    → is_below n d ≡ true
    → get d key ≡ some v
    → v ≤ n
unfolding get
get-le n [] key b h = cc
get-le n ((k, w) ∷ d) key {v} b h = ground (arith, get-le n d key {v = v})

keysyms-is_below : is_below 0xFFFF keysyms ≡ true
unfolding keysyms
keysyms-is_below = refl

in_range-le : (n : ℕ) {v : ℕ} → in_range n ≡ some v → v ≤ max_keysym
in_range-le n h = ground arith

hex_value-le : (key : Text) {v : ℕ} → hex_value key ≡ some v → v ≤ max_keysym
hex_value-le key {v} h = elim (Option-cases (scan_hex prefixed 0 key)) [
  | inl bad ↦ (let e : none ≡ some v = rw (bad, hex_value) at h in cc)
  | inr (w, good) ↦ (let e : in_range w ≡ some v = rw (good, hex_value) at h in in_range-le w e)
]

after_prefix-le : (key : Text) {v : ℕ} → after_prefix key ≡ some v → v ≤ max_keysym
after_prefix-le [] h = cc
after_prefix-le (a ∷ []) h = cc
after_prefix-le (a ∷ b ∷ rest) {v} h = ground (arith, hex_value-le rest {v = v})

lookup_name-le : (key : Text) {v : ℕ} → lookup_name key ≡ some v → v ≤ max_keysym
unfolding lookup_name
lookup_name-le key {v} h = elim (Option-cases (get keysyms key)) [
  | inl absent ↦ after_prefix-le key (rw (absent, lookup_name) at h)
  | inr (w, found) ↦
      (let small : w ≤ 0xFFFF = get-le 0xFFFF keysyms key keysyms-is_below found in
        let same : some w ≡ some v = rw (found, lookup_name) at h in ground arith)
]

-- Every keysym that `lookup` returns fits in 32 bits, for whatever it is given.
pub lookup-le : (name : Name) {v : ℕ} → lookup name ≡ some v → v ≤ max_keysym
unfolding lookup
lookup-le (int n) h = ground arith
lookup-le other h = cc
lookup-le (str []) h = lookup_name-le _ h
lookup-le (str (c ∷ [])) {v} h = ground (arith, lookup_name-le (lower (c ∷ [])) {v = v})
lookup-le (str (c ∷ d ∷ cs)) h = lookup_name-le _ h

lower_char_idem : (c : ℕ) → lower_char (lower_char c) ≡ lower_char c
unfolding lower_char
lower_char_idem c = ground arith

lower_idem : (s : Text) → lower (lower s) ≡ lower s
unfolding lower
lower_idem [] = refl
lower_idem (c ∷ s) = cc (lower_char_idem c, lower_idem s)

-- The name of a key is read without regard to case, unless it is a single character.
pub lookup-lower : (s : Text) → length s ≢ 1 → lookup (str (lower s)) ≡ lookup (str s)
unfolding lookup lower
lookup-lower [] h = refl
lookup-lower (c ∷ []) h = absurd (h refl)
lookup-lower (c ∷ d ∷ cs) h = ap lookup_name (lower_idem (c ∷ d ∷ cs))

-- A single character has a keysym from which it can be read back.
unfoldable pub keysym_char : ℕ → ℕ
keysym_char ks = if leb ks 0xFF then ks else ks - unicode_base

-- A single character always has a keysym, and `keysym_char` gives the character back. So no two
-- characters share one.
pub lookup_char :
    (c : ℕ) → c ≤ 0x10FFFF → (v : ℕ) × (lookup (str (c ∷ [])) ≡ some v) × (keysym_char v ≡ c)
unfolding lookup keysym_char
lookup_char c h = elim (Bool-cases (leb c 0xFF)) [
  | inl low ↦ (c, ground arith, ground arith)
  | inr high ↦ (unicode_base + c, ground arith, ground arith)
]

-- The number that hexadecimal digits denote.
abbrev pub value_from : ℕ → List ℕ → ℕ
value_from acc [] = acc
value_from acc (d ∷ ds) = value_from (acc * 16 + d) ds

unfoldable pub hex_char : ℕ → ℕ
hex_char d = if leb d 9 then b'0' + d else b'a' + (d - 10)

hex_digit-hex_char : (d : ℕ) → d < 16 → hex_digit (hex_char d) ≡ some d
unfolding hex_digit hex_char
hex_digit-hex_char d h = ground arith

lower_char-hex_char : (d : ℕ) → d < 16 → lower_char (hex_char d) ≡ hex_char d
unfolding lower_char hex_char
lower_char-hex_char d h = ground arith

abbrev pub IsHex : List ℕ → Type 0
IsHex = All (λ d. d < 16)

scan_hex_digits :
    (ds : List ℕ) (acc : ℕ)
    → IsHex ds
    → scan_hex after_digit acc (map hex_char ds) ≡ some (value_from acc ds)
unfolding scan_hex
scan_hex_digits [] acc h = refl
scan_hex_digits (d ∷ ds) acc h =
    rw (hex_digit-hex_char d h.0, scan_hex) (scan_hex_digits ds (acc * 16 + d) h.1)

lower-hex : (ds : List ℕ) → IsHex ds → lower (map hex_char ds) ≡ map hex_char ds
unfolding lower
lower-hex [] h = refl
lower-hex (d ∷ ds) h = cc (lower_char-hex_char d h.0, lower-hex ds h.1)

scan_hex_first :
    (d : ℕ) (ds : List ℕ)
    → IsHex (d ∷ ds)
    → scan_hex prefixed 0 (map hex_char (d ∷ ds)) ≡ some (value_from 0 (d ∷ ds))
unfolding scan_hex
scan_hex_first d ds h =
    rw (hex_digit-hex_char d h.0, scan_hex) (scan_hex_digits ds (0 * 16 + d) h.1)

abbrev ranged : Option ℕ → Option ℕ
ranged o = elim o [ none ↦ none | some v ↦ in_range v ]

lower-prefixed :
    (ds : List ℕ) → IsHex ds → lower (b'0' ∷ b'x' ∷ map hex_char ds) ≡ b'0' ∷ b'x' ∷ map hex_char ds
unfolding lower lower_char
lower-prefixed ds h = ap (λ t. b'0' ∷ b'x' ∷ t) (lower-hex ds h)

-- No name of the table begins with a digit.
lookup_name-prefixed :
    (ds : List ℕ)
    → lookup_name (b'0' ∷ b'x' ∷ map hex_char ds) ≡ ranged (scan_hex prefixed 0 (map hex_char ds))
unfolding lookup_name keysyms get
lookup_name-prefixed ds = refl

lookup-digits :
    (d : ℕ) (ds : List ℕ)
    → IsHex (d ∷ ds)
    → lookup (str (b'0' ∷ b'x' ∷ map hex_char (d ∷ ds)))
      ≡ lookup (int (pos (value_from 0 (d ∷ ds))))
unfolding lookup
lookup-digits d ds h =
    ap lookup_name (lower-prefixed (d ∷ ds) h)
    ∙ lookup_name-prefixed (d ∷ ds)
    ∙ ap ranged (scan_hex_first d ds h)

two_letters : (t : Text) (a b : ℕ) (rest : Text) → lower t ≡ a ∷ b ∷ rest → length t ≢ 1
unfolding lower
two_letters [] a b rest e = λ l. cc
two_letters (c ∷ []) a b rest e = λ l. absurd (bad e)
  where
    bad : lower (c ∷ []) ≢ a ∷ b ∷ rest
    bad q = cc
two_letters (c ∷ d ∷ cs) a b rest e = λ l. omega (arith, l)

-- "0x" and one or more hexadecimal digits, each letter of either case, name the keysym of that number,
-- if it fits in 32 bits, and nothing otherwise.
pub lookup-hex :
    (t : Text) (d : ℕ) (ds : List ℕ)
    → IsHex (d ∷ ds)
    → lower t ≡ b'0' ∷ b'x' ∷ map hex_char (d ∷ ds)
    → lookup (str t) ≡ lookup (int (pos (value_from 0 (d ∷ ds))))
lookup-hex t d ds h e =
    sym (lookup-lower t (two_letters t b'0' b'x' (map hex_char (d ∷ ds)) e))
    ∙ ap (λ s. lookup (str s)) e
    ∙ lookup-digits d ds h
