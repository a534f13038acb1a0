-- ===== src/Portal/Input/Refusal.antt =====
-- Input into a session that is not started.
use py_wayland_auto.Base.{
  ℕ, ◌≡◌, ◌≢◌, refl, ap, Bool, true, false, Text, String, Option, none, some, arith, is_some,
  if◌then◌else◌, str_eq,
}
use py_wayland_auto.Base.Int.{ℤ, pos}
use py_wayland_auto.Outcome.{BackendError, Exn, Result, ok, raised, backend_error, value_error}
use py_wayland_auto.Wire.{Float}
use py_wayland_auto.Keysyms.{Name, int, lookup}
use py_wayland_auto.Stateful.{lift, bind_with, ◌>>=◌, ◌>>◌}
use py_wayland_auto.Portal.World.{State, started, Session, Env, World, M}
use py_wayland_auto.Portal.Input.{refusal, require_started, press_state, raise_some}
use py_wayland_auto.Portal.Input.Pointer.{move_abs, move_rel, button, click, scroll, button_code}
use py_wayland_auto.Portal.Input.Keys.{key, key_once, tap, type_text, tap_number, or_unknown}

-- The input methods with their arguments.
pub data Input : Type 0 where
  move_abs_to : Float → Float → Input
  move_rel_by : Float → Float → Input
  button_to : Name → String → Input
  click_of : Name → Input
  scroll_by : ℤ → ℤ → Bool → Input
  key_to : Name → String → Input
  tap_of : Name → Input
  type_of : Text → Input

unfoldable pub perform : Env → Input → M (Unit {0})
perform env (move_abs_to x y) = move_abs env x y
perform env (move_rel_by dx dy) = move_rel env dx dy
perform env (button_to name state) = button env name state
perform env (click_of name) = click env name
perform env (scroll_by dx dy discrete) = scroll env dx dy discrete
perform env (key_to name state) = key env name state
perform env (tap_of name) = tap env name
perform env (type_of text) = type_text env text

-- A method that raises and has changed nothing.
abbrev Refuses : M (Unit {0}) → World → Type 0
Refuses m w = (e : Exn) × (m w ≡ (raised e, w))

refusal-some : (s : Session) → s.state ≢ started → is_some (refusal s) ≡ true
unfolding refusal
refusal-some s idle = go s.state s.last_error idle
  where
    go :
        (st : State) (l : Option BackendError)
        → st ≢ started
        → is_some (refusal (record s { state = st; last_error = l })) ≡ true
    go st l h = ground arith

raise_some-Refuses :
    (o : Option BackendError) (w : World) → is_some o ≡ true → Refuses (raise_some o) w
raise_some-Refuses none w e = ground arith
raise_some-Refuses (some b) w e = (backend_error b, refl)

require_started-Refuses : (w : World) → w.session.state ≢ started → Refuses require_started w
unfolding require_started
require_started-Refuses w idle =
    raise_some-Refuses (refusal w.session) w (refusal-some w.session idle)

-- What follows a refusal is not run.
bind-Refuses :
    {A : Type 0} (m : M A) (k : A → M (Unit {0})) (w : World) (e : Exn)
    → m w ≡ (raised e, w)
    → Refuses (m >>= k) w
bind-Refuses m k w e p = (e, ap (λ r. bind_with r k) p)

then-Refuses : (m k : M (Unit {0})) (w : World) → Refuses m w → Refuses (m >> k) w
then-Refuses m k w (e, p) = bind-Refuses m (λ _. k) w e p

lift-Refuses :
    {A : Type 0} (r : Result A) (k : A → M (Unit {0})) (w : World)
    → ((a : A) → Refuses (k a) w)
    → Refuses (lift r >>= k) w
lift-Refuses (ok a) k w h = h a
lift-Refuses (raised e) k w h = (e, refl)

module _ (env : Env) (w : World) (idle : w.session.state ≢ started) where
  require-Refuses : (k : M (Unit {0})) → Refuses (require_started >> k) w
  require-Refuses k = then-Refuses require_started k w (require_started-Refuses w idle)

  button-Refuses : (name : Name) (state : String) → Refuses (button env name state) w
  unfolding button
  button-Refuses name state =
      lift-Refuses (button_code name) _ w
        λ code. lift-Refuses (press_state state) _ w λ press. require-Refuses _

  key_once-Refuses : (ks : ℕ) (state : String) → Refuses (key_once env ks state) w
  unfolding key_once
  key_once-Refuses ks state = lift-Refuses (press_state state) _ w λ press. require-Refuses _

  or_unknown-Refuses :
      (o : Option ℕ) (k : ℕ → M (Unit {0}))
      → ((ks : ℕ) → Refuses (k ks) w)
      → Refuses (or_unknown env o >>= k) w
  or_unknown-Refuses none k h = (value_error, refl)
  or_unknown-Refuses (some ks) k h = h ks

  tap_number-Refuses : (ks : ℕ) → Refuses (tap_number env ks) w
  unfolding tap_number
  tap_number-Refuses ks =
      or_unknown-Refuses (lookup (int (pos ks))) _
        λ down. then-Refuses (key_once env down "press") _ w (key_once-Refuses down "press")

  key-Refuses : (name : Name) (state : String) → Refuses (key env name state) w
  unfolding key
  key-Refuses name state =
      or_unknown-Refuses (lookup name) _ λ ks. ite-Refuses ks (str_eq state "tap")
    where
      ite-Refuses :
          (ks : ℕ) (b : Bool) → Refuses (if b then tap_number env ks else key_once env ks state) w
      ite-Refuses ks true = tap_number-Refuses ks
      ite-Refuses ks false = key_once-Refuses ks state

  -- In a session that is not started, every input method with every argument raises, has made no
  -- call and has changed nothing.
  pub perform-refused : (input : Input) → (e : Exn) × (perform env input w ≡ (raised e, w))
  unfolding perform move_abs move_rel click scroll tap type_text
  perform-refused (move_abs_to x y) = require-Refuses _
  perform-refused (move_rel_by dx dy) = require-Refuses _
  perform-refused (button_to name state) = button-Refuses name state
  perform-refused (click_of name) =
      then-Refuses (button env name "press") _ w (button-Refuses name "press")
  perform-refused (scroll_by dx dy discrete) = require-Refuses _
  perform-refused (key_to name state) = key-Refuses name state
  perform-refused (tap_of name) = then-Refuses (key env name "press") _ w (key-Refuses name "press")
  perform-refused (type_of text) = require-Refuses _
