-- ===== src/Stateful.antt =====
-- Code that changes a state and may raise: a function from the state to a result and the state
-- after it. What was changed stays changed after a raise.
use py_wayland_auto.Base.{String}
use py_wayland_auto.Outcome.{Exn, Result, ok, raised, dbus_error, eis_error}

abbrev pub Stateful : Type 0 → Type 0 → Type 0
Stateful S A = S → Result A × S

module _ {S : Type 0} where
  abbrev pub pure : {A : Type 0} → A → Stateful S A
  pure a s = (ok a, s)

  abbrev pub raise : {A : Type 0} → Exn → Stateful S A
  raise e s = (raised e, s)

  abbrev pub bind_with : {A B : Type 0} → Result A × S → (A → Stateful S B) → Result B × S
  bind_with (ok a, s) k = k a s
  bind_with (raised e, s) k = (raised e, s)

  infixl 5 ◌>>=◌ ◌>>◌
  abbrev pub ◌>>=◌ : {A B : Type 0} → Stateful S A → (A → Stateful S B) → Stateful S B
  ◌>>=◌ m k s = bind_with (m s) k

  abbrev pub ◌>>◌ : {A B : Type 0} → Stateful S A → Stateful S B → Stateful S B
  m >> k = m >>= λ _. k

  abbrev pub gets : {A : Type 0} → (S → A) → Stateful S A
  gets f s = (ok (f s), s)

  abbrev pub change : (S → S) → Stateful S (Unit {0})
  change f s = (ok tt, f s)

  abbrev pub lift : {A : Type 0} → Result A → Stateful S A
  lift r s = (r, s)

  -- `try: m except Exception as e: handle e`
  abbrev pub catch_with : {A : Type 0} → Result A × S → (Exn → Stateful S A) → Result A × S
  catch_with (ok a, s) handle = (ok a, s)
  catch_with (raised e, s) handle = handle e s

  abbrev pub catch : {A : Type 0} → Stateful S A → (Exn → Stateful S A) → Stateful S A
  catch m handle s = catch_with (m s) handle

  -- `except dbus.exceptions.DBusException as e`, by the name of the error.
  abbrev pub on_dbus : {A : Type 0} → (String → Stateful S A) → Exn → Stateful S A
  on_dbus handle (dbus_error name) = handle name
  on_dbus handle e = raise e

  -- `except EisError`
  abbrev pub on_eis : {A : Type 0} → Stateful S A → Exn → Stateful S A
  on_eis handle eis_error = handle
  on_eis handle e = raise e

  -- What holds where a method returns.
  abbrev pub Post : {A : Type 0} → Result A × S → (A → S → Type 0) → Type 0
  Post (ok a, s) Q = Q a s
  Post (raised e, s) Q = Unit

  pub bind-Post :
      {A B : Type 0} (m : Stateful S A) (k : A → Stateful S B) (s : S) (P : A → S → Type 0)
      (Q : B → S → Type 0)
      → Post (m s) P
      → ((a : A) (s' : S) → P a s' → Post (k a s') Q)
      → Post ((m >>= k) s) Q
  bind-Post {A} m k s P Q h next = go (m s) h
    where
      go : (r : Result A × S) → Post r P → Post (bind_with r k) Q
      go (ok a, s') p = next a s' p
      go (raised e, s') p = tt
