-- ===== src/Eis/Client/Parts.antt =====
-- What a client knows of the parts of a device, under the changes that events make.
use py_wayland_auto.Base.{
  ℕ, ◌+◌, ◌<◌, ◌≡◌, subst, Bool, true, false, List, [], ◌∷◌, Option, none, some, is_some, ◌==◌,
  if◌then◌else◌, Text, codes, arith, Bool-cases, inl, inr, All,
}
use py_wayland_auto.Eis.Tables.{Interface, interface_named}
use py_wayland_auto.Dict.{text_eq-eq}
use py_wayland_auto.Eis.Client.{Device, get_name, put_key, get_key}

-- The interface of a name tells the name, where it is one that the client keeps a device for.
abbrev pub keyboard_name : Text
keyboard_name = codes "ei_keyboard"

abbrev pub pointer_name : Text
pointer_name = codes "ei_pointer"

abbrev pub absolute_name : Text
absolute_name = codes "ei_pointer_absolute"

pub interface_named-keyboard :
    (name : Text) → interface_named name ≡ Interface.keyboard → name ≡ keyboard_name
unfolding interface_named
interface_named-keyboard name h = ground (arith, text_eq-eq name keyboard_name)

pub interface_named-pointer :
    (name : Text) → interface_named name ≡ Interface.pointer → name ≡ pointer_name
unfolding interface_named
interface_named-pointer name h = ground (arith, text_eq-eq name pointer_name)

pub interface_named-pointer_absolute :
    (name : Text) → interface_named name ≡ Interface.pointer_absolute → name ≡ absolute_name
unfolding interface_named
interface_named-pointer_absolute name h = ground (arith, text_eq-eq name absolute_name)

-- A device at a place that is taken, with the named part.
abbrev pub HasPart : Text → Option ℕ → ℕ → (ℕ → Device) → Type 0
HasPart name none allocated store = Unit
HasPart name (some place) allocated store =
    (place < allocated) × (is_some (get_name name (store place).sub) ≡ true)

module _ (name : Text) (o : Option ℕ) (allocated : ℕ) (store : ℕ → Device) where
  -- A change of a device that loses no part.
  pub update-HasPart :
      (place : ℕ) (f : Device → Device)
      → ((d : Device)
          → is_some (get_name name d.sub) ≡ true
          → is_some (get_name name (f d).sub) ≡ true)
      → HasPart name o allocated store
      → HasPart name o allocated (λ at. if at == place then f (store at) else store at)
  update-HasPart place f grow h = go o h
    where
      at_place :
          (p : ℕ) (b : Bool)
          → is_some (get_name name (store p).sub) ≡ true
          → is_some (get_name name (if b then f (store p) else store p).sub) ≡ true
      at_place p true g = grow (store p) g
      at_place p false g = g

      go :
          (o : Option ℕ)
          → HasPart name o allocated store
          → HasPart name o allocated (λ at. if at == place then f (store at) else store at)
      go none g = tt
      go (some p) (taken, part) = (taken, at_place p (p == place) part)

  -- A new device.
  pub add-HasPart :
      (d : Device)
      → HasPart name o allocated store
      → HasPart name o (allocated + 1) (λ at. if at == allocated then d else store at)
  add-HasPart d h = go o h
    where
      go :
          (o : Option ℕ)
          → HasPart name o allocated store
          → HasPart name o (allocated + 1) (λ at. if at == allocated then d else store at)
      go none g = tt
      go (some p) (taken, part) =
          let elsewhere : (p == allocated) ≡ false = ground arith in
          (omega arith, rw elsewhere part)

-- The places of a dictionary are taken.
abbrev pub AreTaken : ℕ → List (ℕ × ℕ) → Type 0
AreTaken allocated = All (λ e. e.1 < allocated)

pub get_key-lt :
    (allocated k place : ℕ) (devices : List (ℕ × ℕ))
    → AreTaken allocated devices
    → get_key k devices ≡ some place
    → place < allocated
unfolding get_key
get_key-lt allocated k place [] h e = cc
get_key-lt allocated k place ((j, p) ∷ devices) (first, later) e = elim (Bool-cases (j == k)) [
  | inl same ↦
      (let e' : some p ≡ some place = rw same at e in
        let q : p ≡ place = cc in subst (λ x. x < allocated) q first)
  | inr differ ↦ get_key-lt allocated k place devices later (rw differ at e)
]

pub put_key-AreTaken :
    (allocated k : ℕ) (devices : List (ℕ × ℕ))
    → AreTaken allocated devices
    → AreTaken (allocated + 1) (put_key k allocated devices)
unfolding put_key
put_key-AreTaken allocated k [] h = (omega arith, tt)
put_key-AreTaken allocated k ((j, p) ∷ devices) (first, later) = elim (Bool-cases (j == k)) [
  | inl same ↦ rw same (omega arith, grow devices later)
  | inr differ ↦ rw differ (omega arith, put_key-AreTaken allocated k devices later)
]
  where
    grow : (ds : List (ℕ × ℕ)) → AreTaken allocated ds → AreTaken (allocated + 1) ds
    grow [] h = tt
    grow ((i, q) ∷ ds) (a, b) = (omega arith, grow ds b)
