-- ===== src/Xkb/Given.antt =====
-- pywaylandauto/backends/xkb.py: which levels `parse_keymap_text` gives a key, and what the resolver of
-- `build_resolver` answers with them.
use py_wayland_auto.Base.{
  ℕ, ◌≡◌, refl, sym, ◌∙◌, ◌⊎◌, inl, inr, List, [], ◌∷◌, Option, none, some, ◌==◌, if◌then◌else◌,
  Text, String, codes, text_eq, arith, Option-cases, Bool-cases,
}
use py_wayland_auto.Outcome.{Result, ok, raised, ◌>>=◌}
use py_wayland_auto.Dict.{get_name}
use py_wayland_auto.Keysyms.{str, lookup}
use py_wayland_auto.Xkb.{
  Keymap, resolve, add_entry, add_entries, us_fallback, is_empty, parsed, resolve_with,
  build_resolver,
}
use py_wayland_auto.Xkb.Rows.{us_rows}
use py_wayland_auto.Xkb.Scan.{key_at, finditer, split_commas}
use py_wayland_auto.Xkb.Symbols.{values}
use py_wayland_auto.Xkb.Parse.{
  Names, names_of, add_levels, add_symbols, add_all, keycodes_section, symbols_section, read_keymap,
  parse_keymap_text, keymap_or_empty,
}
use py_wayland_auto.Xkb.Resolve.{
  levels_of, at_level, HasUniqueKeys, levels_of-add_key, add_key-HasUniqueKeys, resolve_sound,
  resolve_complete,
}

-- The levels that a key statement gives a keycode: none unless its name is that keycode's and a token
-- of it has a value.
abbrev pub levels_given : ℕ → Option ℕ → List ℕ → Option (List ℕ)
levels_given c none vs = none
levels_given c (some k) [] = none
levels_given c (some k) (v ∷ vs) = if k == c then some (v ∷ vs) else none

abbrev pub or_else {ℓ} : {A : Type ℓ} → Option A → Option A → Option A
or_else none other = other
or_else (some a) other = some a

-- The last of the statements that gives the keycode levels.
unfoldable pub last_given : Names → ℕ → List (Text × Text) → Option (List ℕ)
last_given names c [] = none
last_given names c ((name, body) ∷ rest) =
    or_else (last_given names c rest)
      (levels_given c (get_name name names) (values (split_commas body)))

levels_of-add_levels :
    (c : ℕ) (k : Option ℕ) (vs : List ℕ) (m : Keymap)
    → levels_of c (elim k [ none ↦ m | some keycode ↦ add_levels keycode vs m ])
      ≡ or_else (levels_given c k vs) (levels_of c m)
levels_of-add_levels c none vs m = refl
levels_of-add_levels c (some k) [] m = refl
levels_of-add_levels c (some k) (v ∷ vs) m = rw (levels_of-add_key c k (v ∷ vs) m) (ground arith)

or_else_assoc : {A : Type 0} (a b c : Option A) → or_else a (or_else b c) ≡ or_else (or_else a b) c
or_else_assoc none b c = refl
or_else_assoc (some a) b c = refl

levels_of-add_all :
    (names : Names) (c : ℕ) (keys : List (Text × Text)) (m : Keymap)
    → levels_of c (add_all names keys m) ≡ or_else (last_given names c keys) (levels_of c m)
unfolding add_all last_given
levels_of-add_all names c [] m = refl
levels_of-add_all names c ((name, body) ∷ rest) m =
    let given = levels_given c (get_name name names) (values (split_commas body)) in
    rw (levels_of-add_all names c rest (add_symbols names name body m)) (
      rw (levels_of-add_levels c (get_name name names) (values (split_commas body)) m)
        (or_else_assoc (last_given names c rest) given (levels_of c m)))

add_levels-HasUniqueKeys :
    (k : Option ℕ) (vs : List ℕ) (m : Keymap)
    → HasUniqueKeys m
    → HasUniqueKeys (elim k [ none ↦ m | some keycode ↦ add_levels keycode vs m ])
add_levels-HasUniqueKeys none vs m h = h
add_levels-HasUniqueKeys (some k) [] m h = h
add_levels-HasUniqueKeys (some k) (v ∷ vs) m h = add_key-HasUniqueKeys k (v ∷ vs) m h

add_all-HasUniqueKeys :
    (names : Names) (keys : List (Text × Text)) (m : Keymap)
    → HasUniqueKeys m
    → HasUniqueKeys (add_all names keys m)
unfolding add_all
add_all-HasUniqueKeys names [] m h = h
add_all-HasUniqueKeys names ((name, body) ∷ rest) m h =
    add_all-HasUniqueKeys names rest (add_symbols names name body m)
      (add_levels-HasUniqueKeys (get_name name names) (values (split_commas body)) m h)

-- Where the keycodes section can be read, the keymap of a text has for each keycode the levels of the
-- last key statement that gives it any.
pub parse_keymap_text-last_given :
    (text keycodes : Text) (names : Names) (c : ℕ)
    → keycodes_section text ≡ ok keycodes
    → names_of keycodes ≡ ok names
    → levels_of c (parse_keymap_text text)
      ≡ last_given names c (finditer key_at (symbols_section text))
unfolding parse_keymap_text read_keymap levels_of
parse_keymap_text-last_given text keycodes names c section named =
    rw (section, read_keymap)
      (rw (named, names_of)
        (rw (levels_of-add_all names c (finditer key_at (symbols_section text)) [])
          (or_else_none (last_given names c (finditer key_at (symbols_section text))))))
  where
    or_else_none : (o : Option (List ℕ)) → or_else o none ≡ o
    or_else_none none = refl
    or_else_none (some vs) = refl

read_keymap-HasUniqueKeys : (text : Text) → HasUniqueKeys (parse_keymap_text text)
unfolding parse_keymap_text read_keymap HasUniqueKeys
read_keymap-HasUniqueKeys text = of_section (keycodes_section text)
  where
    keys : List (Text × Text)
    keys = finditer key_at (symbols_section text)

    of_names :
        (r : Result Names)
        → HasUniqueKeys (keymap_or_empty (r >>= λ names. ok (add_all names keys [])))
    of_names (raised e) = tt
    of_names (ok names) = add_all-HasUniqueKeys names keys [] tt

    of_section :
        (r : Result Text)
        → HasUniqueKeys (
            keymap_or_empty
              (r >>= λ keycodes. names_of keycodes >>= λ names. ok (add_all names keys [])))
    of_section (raised e) = tt
    of_section (ok keycodes) = of_names (names_of keycodes)

parsed-HasUniqueKeys : (text : Option String) → HasUniqueKeys (parsed text)
unfolding HasUniqueKeys
parsed-HasUniqueKeys none = tt
parsed-HasUniqueKeys (some text) = elim (Bool-cases (text_eq (codes text) [])) [
  | inl blank ↦ rw blank tt
  | inr filled ↦ rw filled (read_keymap-HasUniqueKeys (codes text))
]

add_entry-HasUniqueKeys :
    (e : ℕ × String × String) (m : Keymap) → HasUniqueKeys m → HasUniqueKeys (add_entry e m)
unfolding add_entry
add_entry-HasUniqueKeys (keycode, base, shifted) m h =
    elim (Option-cases (lookup (str (codes base)))) [
      | inl absent ↦ rw (absent, add_entry) h
      | inr (base_sym, known) ↦
          rw (known, add_entry)
            (elim (Bool-cases (text_eq (codes shifted) (codes base))) [
              | inl same ↦ rw same (add_key-HasUniqueKeys keycode (base_sym ∷ []) m h)
              | inr other ↦ rw other (elim (Option-cases (lookup (str (codes shifted)))) [
                | inl absent ↦ rw absent (add_key-HasUniqueKeys keycode (base_sym ∷ []) m h)
                | inr (shifted_sym, found) ↦
                    rw found (add_key-HasUniqueKeys keycode (base_sym ∷ shifted_sym ∷ []) m h)
              ])
            ])
    ]

add_entries-HasUniqueKeys :
    (es : List (ℕ × String × String)) (m : Keymap)
    → HasUniqueKeys m
    → HasUniqueKeys (add_entries es m)
unfolding add_entries
add_entries-HasUniqueKeys [] m h = h
add_entries-HasUniqueKeys (e ∷ es) m h =
    add_entries-HasUniqueKeys es (add_entry e m) (add_entry-HasUniqueKeys e m h)

us_fallback-HasUniqueKeys : HasUniqueKeys us_fallback
unfolding us_fallback HasUniqueKeys
us_fallback-HasUniqueKeys = add_entries-HasUniqueKeys us_rows [] tt

-- The keymap lists the keycode, and gives the keysym at that level of it.
abbrev pub Gives : Keymap → ℕ → ℕ → ℕ → Type 0
Gives m keysym c level =
    (vs : List ℕ) × (levels_of c m ≡ some vs) × (at_level vs level ≡ some keysym)

abbrev pub GivesNone : Keymap → ℕ → Type 0
GivesNone m keysym = (c level : ℕ) → ¬ (Gives m keysym c level)

resolve-GivesNone : (m : Keymap) (keysym : ℕ) → resolve m keysym ≡ none → GivesNone m keysym
resolve-GivesNone m keysym absent c level (vs, listed, at) =
    resolve_complete m keysym c level vs listed at absent

resolve_with-Gives :
    (m : Keymap) (keysym c level : ℕ)
    → HasUniqueKeys m
    → resolve_with m keysym ≡ some (c, level)
    → Gives m keysym c level ⊎ (GivesNone m keysym × Gives us_fallback keysym c level)
resolve_with-Gives m keysym c level unique r = elim (Option-cases (resolve m keysym)) [
  | inl absent ↦ inr (
    resolve-GivesNone m keysym absent,
    resolve_sound us_fallback keysym us_fallback-HasUniqueKeys (rw (absent, resolve_with) at r),
  )
  | inr (found, e) ↦
      (let same : ◌≡◌ {A = Option (ℕ × ℕ)} (some found) (some (c, level)) =
          rw (e, resolve_with) at r in
        inl (resolve_sound m keysym unique (e ∙ same)))
]

resolver-resolve_with :
    (text : Option String) (keysym : ℕ)
    → build_resolver text keysym ≡ resolve_with (parsed text) keysym
unfolding build_resolver resolve
resolver-resolve_with text keysym = go (parsed text)
  where
    go :
        (m : Keymap)
        → (if is_empty m then resolve us_fallback keysym else resolve_with m keysym)
          ≡ resolve_with m keysym
    go [] = refl
    go (k ∷ m) = refl

-- What the resolver answers for a keysym is a key and a level at which the keymap of the text gives it
-- or, only where no key of that keymap gives it at any level, one at which the US table does.
pub build_resolver-Gives :
    (text : Option String) (keysym c level : ℕ)
    → build_resolver text keysym ≡ some (c, level)
    → Gives (parsed text) keysym c level
      ⊎ (GivesNone (parsed text) keysym × Gives us_fallback keysym c level)
build_resolver-Gives text keysym c level r =
    resolve_with-Gives (parsed text) keysym c level (parsed-HasUniqueKeys text)
      (sym (resolver-resolve_with text keysym) ∙ r)
