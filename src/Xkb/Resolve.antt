-- ===== src/Xkb/Resolve.antt =====
-- pywaylandauto/backends/xkb.py: what `Keymap.resolve` finds.
use py_wayland_auto.Base.{
  ℕ, zero, suc, ◌+◌, ◌-◌, ◌≤◌, ◌≡◌, ◌≢◌, refl, inl, inr, List, [], ◌∷◌, Option, none, some, ◌==◌,
  if◌then◌else◌, arith, Option-cases, Bool-cases,
}
use py_wayland_auto.Xkb.{Keymap, add_key, find_level, resolve}

-- The keysym that a key gives at a level.
abbrev pub at_level : List ℕ → ℕ → Option ℕ
at_level [] n = none
at_level (v ∷ vs) zero = some v
at_level (v ∷ vs) (suc n) = at_level vs n

-- The levels of a key: `_levels.get(keycode)`.
unfoldable pub levels_of : ℕ → Keymap → Option (List ℕ)
levels_of keycode [] = none
levels_of keycode ((k, ls) ∷ m) = if k == keycode then some ls else levels_of keycode m

-- No keycode is listed twice, as in every dictionary.
unfoldable pub HasUniqueKeys : Keymap → Type 0
HasUniqueKeys [] = Unit
HasUniqueKeys ((k, ls) ∷ m) = (levels_of k m ≡ none) × HasUniqueKeys m

pub levels_of-add_key :
    (c k : ℕ) (ls : List ℕ) (m : Keymap)
    → levels_of c (add_key k ls m) ≡ (if k == c then some ls else levels_of c m)
unfolding levels_of add_key
levels_of-add_key c k ls [] = refl
levels_of-add_key c k ls ((j, js) ∷ m) = ground (arith, levels_of-add_key c k ls m)

-- `add_key` keeps the keys unique.
pub add_key-HasUniqueKeys :
    (k : ℕ) (ls : List ℕ) (m : Keymap) → HasUniqueKeys m → HasUniqueKeys (add_key k ls m)
unfolding add_key HasUniqueKeys levels_of
add_key-HasUniqueKeys k ls [] h = (refl, tt)
add_key-HasUniqueKeys k ls ((j, js) ∷ m) h = elim (Bool-cases (j == k)) [
  | inl same ↦ rw same h
  | inr differ ↦
      rw differ (rw (levels_of-add_key j k ls m) (ground arith), add_key-HasUniqueKeys k ls m h.1)
]

find_level-at_level :
    (ks n : ℕ) (vs : List ℕ) {level : ℕ}
    → find_level ks n vs ≡ some level
    → (n ≤ level) × (at_level vs (level - n) ≡ some ks)
unfolding find_level
find_level-at_level ks n [] h = cc
find_level-at_level ks n (v ∷ vs) {level} h = elim (Bool-cases (v == ks)) [
  | inl here ↦
      (let e : some n ≡ some level = rw (here, find_level) at h in
        let n_eq : n ≡ level = cc in
        let zero_eq : level - n ≡ 0 = omega arith in (omega arith, rw zero_eq (ground arith)))
  | inr further ↦
      (let e : find_level ks (n + 1) vs ≡ some level = rw (further, find_level) at h in
        let (le, at) = find_level-at_level ks (n + 1) vs e in
        let step : level - n ≡ suc (level - (n + 1)) = omega arith in (omega arith, rw step at))
]

find_level-none :
    (ks n : ℕ) (vs : List ℕ) → find_level ks n vs ≡ none → (i : ℕ) → at_level vs i ≢ some ks
unfolding find_level
find_level-none ks n [] h i = λ e. cc
find_level-none ks n (v ∷ vs) h zero = ground arith
find_level-none ks n (v ∷ vs) h (suc i) =
    ground (arith, λ (e : find_level ks (n + 1) vs ≡ none). find_level-none ks (n + 1) vs e i)

resolve-unlisted :
    (m : Keymap) (ks c l d : ℕ)
    → HasUniqueKeys m
    → levels_of c m ≡ none
    → resolve m ks ≡ some (d, l)
    → c ≢ d
unfolding levels_of resolve HasUniqueKeys
resolve-unlisted [] ks c l d u a r = cc
resolve-unlisted ((k, vs) ∷ m) ks c l d u a r = elim (Option-cases (find_level ks 0 vs)) [
  | inl absent ↦ ground (arith, resolve-unlisted m ks c l d u.1)
  | inr (n, found) ↦ ground arith
]

level_of : (k n c l : ℕ) → ◌≡◌ {A = Option (ℕ × ℕ)} (some (k, n)) (some (c, l)) → n ≡ l
level_of k n c l e = cc

-- What `resolve` answers is in the keymap: the key is listed, and gives the keysym at that level.
pub resolve_sound :
    (m : Keymap) (ks : ℕ) {c l : ℕ}
    → HasUniqueKeys m
    → resolve m ks ≡ some (c, l)
    → (vs : List ℕ) × (levels_of c m ≡ some vs) × (at_level vs l ≡ some ks)
unfolding resolve levels_of HasUniqueKeys
resolve_sound [] ks u r = cc
resolve_sound ((k, vs) ∷ m) ks {c} {l} u r = elim (Option-cases (find_level ks 0 vs)) [
  | inl absent ↦
      (let r' : resolve m ks ≡ some (c, l) = rw (absent, resolve) at r in
        let (ws, listed, at) = resolve_sound m ks u.1 r' in
        (ws, ground (arith, resolve-unlisted m ks k l c u.1 u.0 r'), at))
  | inr (n, found) ↦
      (let e : ◌≡◌ {A = Option (ℕ × ℕ)} (some (k, n)) (some (c, l)) = rw (found, resolve) at r in
        let (_, at) = find_level-at_level ks 0 vs found in
        let key_eq : k ≡ c = cc in
        let level_eq : n - 0 ≡ l = omega (arith, level_of k n c l e) in
        (vs, ground arith, rw (← level_eq) at))
]

-- If some key gives the keysym at some level, `resolve` finds one.
pub resolve_complete :
    (m : Keymap) (ks c i : ℕ) (vs : List ℕ)
    → levels_of c m ≡ some vs
    → at_level vs i ≡ some ks
    → resolve m ks ≢ none
unfolding resolve levels_of
resolve_complete [] ks c i vs h at r = cc
resolve_complete ((k, ws) ∷ m) ks c i vs h at r = elim (Option-cases (find_level ks 0 ws)) [
  | inl absent ↦
      (let r' : resolve m ks ≡ none = rw (absent, resolve) at r in
        elim (Bool-cases (k == c)) [
          | inl here ↦
              (let same : some ws ≡ some vs = rw (here, levels_of) at h in
                let ws_eq : ws ≡ vs = cc in find_level-none ks 0 ws absent i (rw ws_eq at))
          | inr further ↦ resolve_complete m ks c i vs (rw (further, levels_of) at h) at r'
        ])
  | inr (n, found) ↦
      (let e : ◌≡◌ {A = Option (ℕ × ℕ)} (some (k, n)) none = rw (found, resolve) at r in cc)
]
