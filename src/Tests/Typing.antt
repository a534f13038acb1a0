-- ===== src/Tests/Typing.antt =====
-- Typing at concrete inputs.
use py_wayland_auto.Base.{
  ℕ, ◌≡◌, refl, List, [], ◌∷◌, inl, inr, Option, some, none, codes, arith, ◌==◌, if◌then◌else◌,
}
use py_wayland_auto.Outcome.{Result, ok}
use py_wayland_auto.Portal.World.{started, World, Call, eis_input, keyboard_key}
use py_wayland_auto.Portal.Start.{new_session}
use py_wayland_auto.Portal.Input.Keys.{type_eis}
use py_wayland_auto.Portal.Input.Typing.{eis_typed, strokes, type_eis-log}
use py_wayland_auto.Tests.Sessions.{willing, fresh, no_files}

-- The key of "a", and Shift.
abbrev one_key : ℕ → Option (ℕ × ℕ)
one_key ks =
    if ks == 97
    then some (30, 0)
    else if ks == 65
    then some (30, 1)
    else if ks == 0xFFE1
    then some (42, 0)
    else none

abbrev typing : World
typing = record fresh {
  session = record (new_session none no_files) {
    state = started;
    session_path = some "/session/1";
    resolver = some one_key;
  };
}

abbrev logged : List Call → Result (Unit {0}) × World
logged calls = (ok tt, record typing { log = calls })

type_eis-log_example :
    type_eis willing (codes "aA") typing
    ≡ logged (
        eis_input (keyboard_key 42 0)
        ∷ eis_input (keyboard_key 30 0)
        ∷ eis_input (keyboard_key 30 1)
        ∷ eis_input (keyboard_key 42 1)
        ∷ eis_input (keyboard_key 30 0)
        ∷ eis_input (keyboard_key 30 1)
        ∷ [])
unfolding eis_typed strokes
type_eis-log_example =
    type_eis-log willing (λ log c. refl) (codes "aA") typing one_key 42 0 refl refl
      ((omega arith, (30, inl refl)), ((omega arith, (30, inr refl)), tt))
