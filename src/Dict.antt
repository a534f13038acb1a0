-- ===== src/Dict.antt =====
-- Python's dictionaries, with integers or names for keys: a list of keys and values in insertion
-- order, a key once.
use py_wayland_auto.Base.{
  true, false, Bool, subst, sym, ap, Text, text_eq, is_some, Bool-cases, inl, inr, ℕ, ◌≡◌, refl,
  List, [], ◌∷◌, Option, none, some, ◌==◌, if◌then◌else◌, arith,
}

module _ {ℓ} {V : Type ℓ} where
  -- `d[k] = v`
  unfoldable pub put_key : ℕ → V → List (ℕ × V) → List (ℕ × V)
  put_key k v [] = (k, v) ∷ []
  put_key k v ((j, w) ∷ m) = if j == k then (k, v) ∷ m else (j, w) ∷ put_key k v m

  -- `d.get(k)`
  unfoldable pub get_key : ℕ → List (ℕ × V) → Option V
  get_key k [] = none
  get_key k ((j, w) ∷ m) = if j == k then some w else get_key k m

  -- `d.pop(k, None)`
  unfoldable pub del_key : ℕ → List (ℕ × V) → List (ℕ × V)
  del_key k [] = []
  del_key k ((j, w) ∷ m) = let rest = del_key k m in if j == k then rest else (j, w) ∷ rest

  pub get_key-put_key :
      (j k : ℕ) (v : V) (m : List (ℕ × V))
      → get_key j (put_key k v m) ≡ (if k == j then some v else get_key j m)
  unfolding put_key get_key
  get_key-put_key j k v [] = refl
  get_key-put_key j k v ((i, w) ∷ m) = ground (arith, get_key-put_key j k v m)

  pub get_key-del_key :
      (j k : ℕ) (m : List (ℕ × V))
      → get_key j (del_key k m) ≡ (if k == j then none else get_key j m)
  unfolding del_key get_key
  get_key-del_key j k [] = ground arith
  get_key-del_key j k ((i, w) ∷ m) = ground (arith, get_key-del_key j k m)

pub text_eq-eq : (a b : Text) → text_eq a b ≡ true → a ≡ b
text_eq-eq [] [] h = refl
text_eq-eq [] (y ∷ ys) h = cc
text_eq-eq (x ∷ xs) [] h = cc
text_eq-eq (x ∷ xs) (y ∷ ys) h = ground (arith, text_eq-eq xs ys)

pub text_eq_refl : (a : Text) → text_eq a a ≡ true
text_eq_refl [] = refl
text_eq_refl (x ∷ xs) = ground (arith, text_eq_refl xs)

module _ {ℓ} {V : Type ℓ} where
  unfoldable pub put_name : Text → V → List (Text × V) → List (Text × V)
  put_name k v [] = (k, v) ∷ []
  put_name k v ((j, w) ∷ m) = if text_eq j k then (k, v) ∷ m else (j, w) ∷ put_name k v m

  unfoldable pub get_name : Text → List (Text × V) → Option V
  get_name k [] = none
  get_name k ((j, w) ∷ m) = if text_eq j k then some w else get_name k m

  -- A name that was put is there, and no name is lost.
  pub get_name-put_name :
      (name : Text) (v : V) (sub : List (Text × V)) → get_name name (put_name name v sub) ≡ some v
  unfolding get_name put_name
  get_name-put_name name v [] = rw (text_eq_refl name) refl
  get_name-put_name name v ((j, w) ∷ sub) = elim (Bool-cases (text_eq j name)) [
    | inl same ↦ rw same (rw (text_eq_refl name) refl)
    | inr differ ↦ rw differ (rw differ (get_name-put_name name v sub))
  ]

  pub is_some-put_name :
      (name k : Text) (v : V) (sub : List (Text × V))
      → is_some (get_name name sub) ≡ true
      → is_some (get_name name (put_name k v sub)) ≡ true
  unfolding get_name put_name
  is_some-put_name name k v [] h = cc
  is_some-put_name name k v ((j, w) ∷ sub) h = elim (Bool-cases (text_eq j k)) [
    | inl same ↦ rw same (
        replaced (text_eq k name) (
          subst (λ t. is_some (if text_eq t name then some w else get_name name sub) ≡ true)
            (text_eq-eq j k same) h))
    | inr differ ↦ rw differ (kept (is_some-put_name name k v sub) (text_eq j name) h)
  ]
    where
      replaced :
          (b : Bool)
          → is_some (if b then some w else get_name name sub) ≡ true
          → is_some (if b then some v else get_name name sub) ≡ true
      replaced true g = refl
      replaced false g = g

      kept :
          (is_some (get_name name sub) ≡ true → is_some (get_name name (put_name k v sub)) ≡ true)
          → (b : Bool) → is_some (if b then some w else get_name name sub) ≡ true
          → is_some (if b then some w else get_name name (put_name k v sub)) ≡ true
      kept later true g = refl
      kept later false g = later g

  -- Another name's value stays.
  pub get_name-put_name_other :
      (name k : Text) (v : V) (sub : List (Text × V))
      → text_eq k name ≡ false
      → get_name name (put_name k v sub) ≡ get_name name sub
  unfolding get_name put_name
  get_name-put_name_other name k v [] h = rw h refl
  get_name-put_name_other name k v ((j, w) ∷ sub) h = elim (Bool-cases (text_eq j k)) [
    | inl same ↦
        (let differ : text_eq j name ≡ false =
            subst (λ t. text_eq t name ≡ false) (sym (text_eq-eq j k same)) h in
          rw (same, differ, h) refl)
    | inr other ↦
        rw other
          (ap (λ r. if text_eq j name then some w else r) (get_name-put_name_other name k v sub h))
  ]
