-- ===== src/Tests/Requests.antt =====
-- Requests at concrete inputs.
use py_wayland_auto.Base.{◌≡◌, refl, [], ◌∷◌, ◌++◌, false, Option, some, codes, String, arith}
use py_wayland_auto.Base.Int.{pos}
use py_wayland_auto.Outcome.{portal_failed, ok, raised, value_error}
use py_wayland_auto.Protocol.{
  Json, null, str, Members, empty, member, request_json, decode_request, encode_request,
}
use py_wayland_auto.Protocol.RoundTrip.{decode_request-encode_request}
use py_wayland_auto.Daemon.Errors.{error_code_for_inj}
use py_wayland_auto.Daemon.Lines.{split_lines, split_lines-append}
use py_wayland_auto.Daemon.Dispatch.{Service, Host}
use py_wayland_auto.Daemon.Handle.{handle_line}
use py_wayland_auto.Daemon.Guard.{inputs}
use py_wayland_auto.Daemon.Guard.Requests.{handle_line-inputs}
use py_wayland_auto.Portal.Start.{new_session}
use py_wayland_auto.Tests.Sessions.{willing, fresh}

abbrev text_params : Members
text_params = member "text" (str "a") empty

-- A parser that knows one line, the text of which stands for the request.
abbrev one_line : String → Option Json
one_line line = some (request_json (pos 4) "input.type_text" text_params)

abbrev print_one : Json → String
print_one v = "request 4"

decode_request-encode_request_example :
    decode_request one_line (encode_request print_one (pos 4) "input.type_text" text_params)
    ≡ ok (record { id = pos 4; method = "input.type_text"; params = text_params })
unfolding encode_request
decode_request-encode_request_example =
    decode_request-encode_request one_line print_one (pos 4) "input.type_text" text_params refl refl
      (omega arith)

error_code_for_inj_example : portal_failed ≡ portal_failed
error_code_for_inj_example = error_code_for_inj portal_failed portal_failed refl

-- Two requests, cut inside the second.
split_lines-append_example :
    split_lines (codes "ping\nsta" ++ codes "tus\n") ≡ (codes "ping" ∷ codes "status" ∷ [], [])
unfolding split_lines
split_lines-append_example = split_lines-append (codes "ping\nsta") (codes "tus\n")

abbrev host : Host
host = record {
  env = willing;
  int_of_float = λ x. raised value_error;
  int_of_str = λ s. raised value_error;
  layout = ok null;
  loads = one_line;
}

abbrev service : Service
service = record { world = fresh; eis_watched = false; watches = 0; quits = 0 }

-- The text is not typed: the session is started instead.
handle_line-inputs_example : inputs (handle_line host (some "request 4") service).1.world.log ≡ 0
unfolding inputs new_session
handle_line-inputs_example = handle_line-inputs host (some "request 4") service (λ e. cc)
