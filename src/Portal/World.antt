-- ===== src/Portal/World.antt =====
-- pywaylandauto/backends/portal.py: the attributes of `PortalSession`, and what surrounds it. The
-- portal's D-Bus interface and the EIS client are an environment that answers each call, by what
-- was called before; every call is logged, also one that fails.
use py_wayland_auto.Base.{ℕ, ◌+◌, Bool, String, List, ◌∷◌, Option, Text}
use py_wayland_auto.Base.Int.{ℤ}
use py_wayland_auto.Outcome.{BackendError, Result, ok}
use py_wayland_auto.Stateful.{Stateful}
use py_wayland_auto.Wire.{Float}
use py_wayland_auto.TokenCache.{Files, Faults}

pub data State : Type 0 where
  init starting started stopped : State

pub data Transport : Type 0 where
  notify eis : Transport

-- The receivers of the portal's Response signal.
pub data Handler : Type 0 where
  on_create_session on_select_devices on_start : Handler

-- The part of an `EisClient` that the session reads.
pub record Eis : Type 0 where
  pub keymap_text : Option String

pub record Session : Type 0 where
  pub transport_override : Option String
  pub state : State
  pub last_error : Option BackendError
  pub session_path : Option String
  -- Device numbers; the source keeps their decimal texts.
  pub devices : List ℕ
  pub transport : Option Transport
  pub eis_client : Option Eis
  pub resolver : Option (ℕ → Option (ℕ × ℕ))
  pub has_token : Bool
  pub retry_without_token : Bool

-- One framed batch of the EIS client.
pub data EisInput : Type 0 where
  motion_relative : Float → Float → EisInput
  motion_absolute : Float → Float → EisInput
  eis_button : ℤ → ℕ → EisInput
  scroll_discrete : ℤ → ℤ → EisInput
  scroll_smooth : Float → Float → EisInput
  keyboard_key : ℕ → ℕ → EisInput

-- The calls that leave the session. A number is the handle token that was drawn with it.
pub data Call : Type 0 where
  add_response_listener : ℕ → Handler → Call
  add_session_closed_listener : String → Call
  create_session : ℕ → ℕ → Call
  select_devices : Option String → Option Text → ℕ → Call
  start_session : Option String → ℕ → Call
  connect_to_eis : Option String → Call
  eis_handshake : Call
  eis_close : Call
  eis_input : EisInput → Call
  close_session : String → Call
  notify_motion : Option String → Float → Float → Call
  notify_button : Option String → ℤ → ℕ → Call
  notify_axis : Option String → Float → Float → Call
  notify_axis_discrete : Option String → ℕ → ℤ → Call
  notify_keysym : Option String → ℕ → ℕ → Call

-- What answers the calls. `answer` gives the exception of a call, if it raises one; the keymap is
-- what the client has read by the end of a handshake.
pub record Env : Type 0 where
  pub answer : List Call → Call → Result (Unit {0})
  pub keymap : List Call → Option String
  pub float_of : ℤ → Option Float
  pub zero_float : Float
  pub faults : List Call → Faults

pub record World : Type 0 where
  pub session : Session
  pub files : Files
  -- Handle tokens drawn so far.
  pub drawn : ℕ
  -- The newest call first.
  pub log : List Call

-- A method: what was changed stays changed after a raise.
abbrev pub M : Type 0 → Type 0
M = Stateful World

abbrev pub modify : (Session → Session) → M (Unit {0})
modify f w = (ok tt, record w { session = f w.session })

-- `new_handle_token()`: tokens are random in the source, and numbered here.
abbrev pub new_handle_token : M ℕ
new_handle_token w = (ok w.drawn, record w { drawn = w.drawn + 1 })

abbrev pub invoke : Env → Call → M (Unit {0})
invoke env c w = (env.answer w.log c, record w { log = c ∷ w.log })
