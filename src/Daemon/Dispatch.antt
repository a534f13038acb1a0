-- ===== src/Daemon/Dispatch.antt =====
-- pywaylandauto/daemon.py: from a line of a client to its response. The interpreter's conversions
-- of floats and texts to int, and the monitor layout, are parameters.
use py_wayland_auto.Base.{
  ℕ, ◌+◌, Bool, true, false, List, Option, none, some, str_eq, String, codes, if◌then◌else◌,
}
use py_wayland_auto.Base.Int.{ℤ, pos, negsuc}
use py_wayland_auto.Outcome.{
  BackendError, permission_pending, permission_denied, Result, ok, raised, backend_error,
  protocol_error, monitor_layout_unavailable, type_error,
}
use py_wayland_auto.Stateful.{Stateful, pure, raise, ◌>>=◌, ◌>>◌, lift}
use py_wayland_auto.Wire.{Float}
use py_wayland_auto.Keysyms.{Name}
use py_wayland_auto.Portal.World.{State, starting, started, Transport, Session, Env, World, M}
use py_wayland_auto.Portal.Start.{start}
use py_wayland_auto.Portal.Input.Refusal.{
  Input, move_abs_to, move_rel_by, button_to, click_of, scroll_by, key_to, tap_of, type_of, perform,
}
use py_wayland_auto.Protocol.{
  Json, boolean, integer, real, str, Members, member_of, method_not_found,
}
use py_wayland_auto.Daemon.Params.{
  or_overflow, invalid, name_param, text_param, button_param, truth,
}

-- `PortalSession.status`
pub record Status : Type 0 where
  pub state : State
  pub devices : List ℕ
  pub transport : Option Transport
  pub has_token : Bool
  pub error : Option BackendError

abbrev pub status_of : Session → Status
status_of s = record {
  state = s.state;
  devices = s.devices;
  transport = s.transport;
  has_token = s.has_token;
  error = s.last_error;
}

-- What `_dispatch` returns, method by method.
pub data Reply : Type 0 where
  version : Reply
  status_reply : Status → Option Json → Reply
  state_reply : State → Reply
  stopped_reply : Reply
  nothing : Reply

-- The daemon's portal session, and its main loop as far as requests reach it: the watches of EIS
-- descriptors that were added, and the quits that were asked for.
pub record Service : Type 0 where
  pub world : World
  pub eis_watched : Bool
  pub watches : ℕ
  pub quits : ℕ

pub record Host : Type 0 where
  pub env : Env
  pub int_of_float : Float → Result ℤ
  pub int_of_str : String → Result ℤ
  pub layout : Result Json
  pub loads : String → Option Json

abbrev pub D : Type 0 → Type 0
D = Stateful Service

-- A call of the session.
abbrev pub in_portal : {A : Type 0} → M A → D A
in_portal m s = let (r, w) = m s.world in (r, record s { world = w })

-- `_maybe_watch_eis`
unfoldable pub maybe_watch_eis : D (Unit {0})
maybe_watch_eis s = elim s.world.session.eis_client [
  | none ↦ (ok tt, s)
  | some _ ↦
      (if s.eis_watched
        then (ok tt, s)
        else (ok tt, record s { eis_watched = true; watches = s.watches + 1 }))
]

abbrev pub is_denied : Option BackendError → Bool
is_denied (some permission_denied) = true
is_denied e = false

-- `portal.tap` or `portal.key`.
abbrev pub key_input : Name → String → Input
key_input name state = if str_eq state "tap" then tap_of name else key_to name state

module _ (host : Host) where
  -- `_ensure_started`
  abbrev pub started_or : State → D (Unit {0})
  started_or started = pure tt
  started_or starting = raise (backend_error permission_pending)
  started_or _ = λ s.
      (if is_denied s.world.session.last_error
        then raise (backend_error permission_denied) s
        else (in_portal (start host.env) >> raise (backend_error permission_pending)) s)

  unfoldable pub ensure_started : D (Unit {0})
  unfolding maybe_watch_eis
  ensure_started = maybe_watch_eis >> λ s. started_or s.world.session.state s

  abbrev pub float_param : Option Json → Result Float
  float_param (some (integer n)) = or_overflow (host.env.float_of n)
  float_param (some (real x)) = ok x
  float_param v = invalid

  -- `int(params.get(key, default))`
  abbrev pub int_param : ℤ → Option Json → Result ℤ
  int_param default none = ok default
  int_param default (some (integer n)) = ok n
  int_param default (some (boolean true)) = ok (pos 1)
  int_param default (some (boolean false)) = ok (pos 0)
  int_param default (some (real x)) = host.int_of_float x
  int_param default (some (str s)) = host.int_of_str s
  int_param default (some v) = raised type_error

  -- An input method whose parameters are read: the session must be started.
  unfoldable pub input : Input → D Reply
  unfolding ensure_started
  input i = ensure_started >> in_portal (perform host.env i) >> pure nothing

  -- `_status`; a layout that is not to be had is left out.
  abbrev pub layout_or : Result Json → D (Option Json)
  layout_or (ok v) = pure (some v)
  layout_or (raised monitor_layout_unavailable) = pure none
  layout_or (raised e) = raise e

  unfoldable pub status : D Reply
  unfolding maybe_watch_eis
  status = maybe_watch_eis >> layout_or host.layout >>= λ layout s.
      (ok (status_reply (status_of s.world.session) layout), s)

  unfoldable pub session_start : D Reply
  session_start = in_portal (start host.env) >> λ s. (ok (state_reply s.world.session.state), s)

  -- The branches of `_dispatch` that read two numbers, a button, a scroll, a key, a text.
  unfoldable pub read_move : (Float → Float → Input) → String → String → Members → D Reply
  unfolding member_of input
  read_move make kx ky ps = do
    x ← lift (float_param (member_of kx ps))
    y ← lift (float_param (member_of ky ps))
    input (make x y)

  unfoldable pub read_button : Members → D Reply
  unfolding member_of input
  read_button ps = do
    name ← lift (name_param (member_of "button" ps))
    state ← lift (text_param (member_of "state" ps))
    input (button_to name state)

  unfoldable pub read_scroll : Members → D Reply
  unfolding member_of input
  read_scroll ps = do
    dx ← lift (int_param (pos 0) (member_of "dx" ps))
    dy ← lift (int_param (negsuc 0) (member_of "dy" ps))
    input (scroll_by dx dy (truth (member_of "discrete" ps)))

  unfoldable pub read_key : Members → D Reply
  unfolding member_of input
  read_key ps = do
    name ← lift (name_param (member_of "keysym" ps))
    state ← lift (text_param (member_of "state" ps))
    input (key_input name state)

  unfoldable pub read_text : Members → D Reply
  unfolding member_of input
  read_text ps = do text ← lift (text_param (member_of "text" ps)); input (type_of (codes text))

  -- `_dispatch`
  unfoldable pub dispatch : String → Members → D Reply
  unfolding status session_start read_move read_button read_scroll read_key read_text member_of
      input
  dispatch method ps =
      if str_eq method "ping"
      then pure version
      else if str_eq method "status"
      then status
      else if str_eq method "session.start"
      then session_start
      else if str_eq method "daemon.stop"
      then pure stopped_reply
      else if str_eq method "input.move_abs"
      then read_move move_abs_to "x" "y" ps
      else if str_eq method "input.move_rel"
      then read_move move_rel_by "dx" "dy" ps
      else if str_eq method "input.button"
      then read_button ps
      else if str_eq method "input.click"
      then input (click_of (button_param (member_of "button" ps)))
      else if str_eq method "input.scroll"
      then read_scroll ps
      else if str_eq method "input.key"
      then read_key ps
      else if str_eq method "input.type_text"
      then read_text ps
      else raise (protocol_error method_not_found)
