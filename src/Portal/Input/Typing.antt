-- ===== src/Portal/Input/Typing.antt =====
-- What typing sends: on the notify transport a press and a release of each character, on the EIS
-- transport a press and a release of each key, within Shift where the character needs it.
use py_wayland_auto.Base.{
  zero, suc, inl, inr, ◌⊎◌, ℕ, ◌≤◌, ◌≡◌, refl, sym, ap, List, [], ◌∷◌, false, Option, none, some,
  String, Text, arith, All, ltb,
}
use py_wayland_auto.Outcome.{ok}
use py_wayland_auto.Portal.World.{Call, eis_input, keyboard_key, notify_keysym, Env, World, invoke}
use py_wayland_auto.Portal.Input.{session}
use py_wayland_auto.Portal.Input.Keys.{
  resolver_of, resolve_key, key_eis, type_eis, latin1, type_char_eis,
}

-- The calls of a text, the newest first, on top of a log.
unfoldable pub notify_typed : String → Text → List Call → List Call
notify_typed path [] log = log
notify_typed path (c ∷ cs) log =
    notify_typed path cs (notify_keysym (some path) c 0 ∷ notify_keysym (some path) c 1 ∷ log)

-- The calls of one character by the key and level that type it, and of a text.
unfoldable pub strokes : Option (ℕ × ℕ) → ℕ → List Call → List Call
strokes none shift log = log
strokes (some (k, zero)) shift log =
    eis_input (keyboard_key k 0) ∷ eis_input (keyboard_key k 1) ∷ log
strokes (some (k, suc l)) shift log =
    eis_input (keyboard_key shift 0)
    ∷ eis_input (keyboard_key k 0)
    ∷ eis_input (keyboard_key k 1)
    ∷ eis_input (keyboard_key shift 1)
    ∷ log

unfoldable pub eis_typed : (ℕ → Option (ℕ × ℕ)) → ℕ → Text → List Call → List Call
unfolding strokes
eis_typed r shift [] log = log
eis_typed r shift (c ∷ cs) log = eis_typed r shift cs (strokes (r c) shift log)

-- A Latin-1 character that a key types at one of the first two levels.
abbrev pub IsTypable : (ℕ → Option (ℕ × ℕ)) → ℕ → Type 0
IsTypable r c = (c ≤ 0xFF) × ((k : ℕ) × ((r c ≡ some (k, 0)) ⊎ (r c ≡ some (k, 1))))

module _ (env : Env) (answers : (log : List Call) (c : Call) → env.answer log c ≡ ok tt) where
  send-ok : (w : World) (c : Call) → invoke env c w ≡ (ok tt, record w { log = c ∷ w.log })
  send-ok w c = rw (answers w.log c) refl

  resolve_key-known :
      (w : World) (r : ℕ → Option (ℕ × ℕ)) (ks k l : ℕ)
      → w.session.resolver ≡ some r
      → r ks ≡ some (k, l)
      → resolve_key env ks w ≡ (ok (k, l), w)
  unfolding resolve_key
  resolve_key-known w r ks k l h found =
      let same : resolver_of env w.session ≡ r = rw h refl in
      rw (same, found)
        (ap (λ x. (ok (k, l), record w { session = record w.session { resolver = x } })) (sym h))

  key_eis-level0 :
      (w : World) (r : ℕ → Option (ℕ × ℕ)) (ks k press : ℕ)
      → w.session.resolver ≡ some r
      → r ks ≡ some (k, 0)
      → key_eis env ks press w
        ≡ (ok tt, record w { log = eis_input (keyboard_key k press) ∷ w.log })
  unfolding key_eis
  key_eis-level0 w r ks k press h found = rw (resolve_key-known w r ks k 0 h found) (send-ok w _)

  key_eis-pressed :
      (w : World) (r : ℕ → Option (ℕ × ℕ)) (ks k s n : ℕ)
      → w.session.resolver ≡ some r
      → r ks ≡ some (k, 1)
      → r 0xFFE1 ≡ some (s, n)
      → key_eis env ks 1 w ≡ (
        ok tt,
        record w { log = eis_input (keyboard_key k 1) ∷ eis_input (keyboard_key s 1) ∷ w.log },
      )
  unfolding key_eis
  key_eis-pressed w r ks k s n h found shift =
      rw (resolve_key-known w r ks k 1 h found, resolve_key-known w r 0xFFE1 s n h shift)
        (rw (answers w.log (eis_input (keyboard_key s 1)))
          (rw (answers (eis_input (keyboard_key s 1) ∷ w.log) (eis_input (keyboard_key k 1))) refl))

  key_eis-released :
      (w : World) (r : ℕ → Option (ℕ × ℕ)) (ks k s n : ℕ)
      → w.session.resolver ≡ some r
      → r ks ≡ some (k, 1)
      → r 0xFFE1 ≡ some (s, n)
      → key_eis env ks 0 w ≡ (
        ok tt,
        record w { log = eis_input (keyboard_key s 0) ∷ eis_input (keyboard_key k 0) ∷ w.log },
      )
  unfolding key_eis
  key_eis-released w r ks k s n h found shift =
      rw (resolve_key-known w r ks k 1 h found, resolve_key-known w r 0xFFE1 s n h shift)
        (rw (answers w.log (eis_input (keyboard_key k 0)))
          (rw (answers (eis_input (keyboard_key k 0) ∷ w.log) (eis_input (keyboard_key s 0))) refl))

  eis-char :
      (w : World) (r : ℕ → Option (ℕ × ℕ)) (c s n : ℕ)
      → w.session.resolver ≡ some r
      → r 0xFFE1 ≡ some (s, n)
      → IsTypable r c
      → latin1 env c (type_char_eis env c) w ≡ (ok tt, record w { log = strokes (r c) s w.log })
  unfolding strokes
  eis-char w r c s n h shift (low, (k, inl found)) =
      let within : ltb 0xFF c ≡ false = ground arith in
      rw (within, key_eis-level0 w r c k 1 h found)
        (rw
          (key_eis-level0 (record w { log = eis_input (keyboard_key k 1) ∷ w.log }) r c k 0 h found)
          (rw found refl))
  eis-char w r c s n h shift (low, (k, inr found)) =
      let within : ltb 0xFF c ≡ false = ground arith in
      rw (within, key_eis-pressed w r c k s n h found shift)
        (rw
          (key_eis-released
            (record w { log = eis_input (keyboard_key k 1) ∷ eis_input (keyboard_key s 1) ∷ w.log })
            r c k s n h found shift)
          (rw found refl))

  -- Where every call is answered, the characters of a text are Latin-1 (at most U+00FF), and the
  -- session's resolver knows Shift and each of them, at the first or the second level, typing the
  -- text on the EIS transport presses and releases the key of each character in the text's order, with Shift pressed before and released
  -- after the key exactly where the level is the second, and changes nothing else.
  pub type_eis-log :
      (text : Text) (w : World) (r : ℕ → Option (ℕ × ℕ)) (s n : ℕ)
      → w.session.resolver ≡ some r
      → r 0xFFE1 ≡ some (s, n)
      → All (IsTypable r) text
      → type_eis env text w ≡ (ok tt, record w { log = eis_typed r s text w.log })
  unfolding type_eis eis_typed
  type_eis-log [] w r s n h shift typable = refl
  type_eis-log (c ∷ cs) w r s n h shift (first, later) =
      rw (eis-char w r c s n h shift first)
        (type_eis-log cs (record w { log = strokes (r c) s w.log }) r s n h shift later)
