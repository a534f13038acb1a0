-- ===== src/Daemon/Handle.antt =====
-- pywaylandauto/daemon.py, `_handle_line`: a line and its response.
use py_wayland_auto.Base.{◌+◌, Option, none, some, str_eq, String, if◌then◌else◌}
use py_wayland_auto.Base.Int.{ℤ, pos}
use py_wayland_auto.Outcome.{Exn, Result, ok, raised, protocol_error, value_error}
use py_wayland_auto.Protocol.{Request, decode_request, invalid_json}
use py_wayland_auto.Daemon.Errors.{error_code_for}
use py_wayland_auto.Daemon.Dispatch.{Reply, Service, Host, dispatch}

-- A response: the request's id, and its result or the code of the error.
pub data Answer : Type 0 where
  success : Reply → Answer
  failure : String → Answer

pub record Response : Type 0 where
  pub id : ℤ
  pub answer : Answer

-- `getattr(e, "code", protocol.ERR_INVALID_JSON)`
abbrev pub code_or_invalid : Exn → String
code_or_invalid (protocol_error code) = code
code_or_invalid e = invalid_json

-- A daemon.stop that was answered asks the main loop to quit.
abbrev pub with_quit : String → Service → Service
with_quit method s = if str_eq method "daemon.stop" then record s { quits = s.quits + 1 } else s

abbrev pub answered : Request → Result Reply × Service → Response × Service
answered req (ok reply, s) =
    (record { id = req.id; answer = success reply }, with_quit req.method s)
answered req (raised e, s) = (record { id = req.id; answer = failure (error_code_for e) }, s)

abbrev pub or_undecodable : (String → Result Request) → Option String → Result Request
or_undecodable decode none = raised value_error
or_undecodable decode (some line) = decode line

unfoldable pub handle_request : Host → Result Request → Service → Response × Service
unfolding dispatch
handle_request host (ok req) s = answered req (dispatch host req.method req.params s)
handle_request host (raised e) s = (record { id = pos 0; answer = failure (code_or_invalid e) }, s)

-- `_handle_line` on a line that was decoded as UTF-8, if it is that.
unfoldable pub handle_line : Host → Option String → Service → Response × Service
unfolding handle_request decode_request
handle_line host line s = handle_request host (or_undecodable (decode_request host.loads) line) s
