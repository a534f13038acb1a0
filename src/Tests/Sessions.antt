-- ===== src/Tests/Sessions.antt =====
-- Sessions at concrete inputs.
use py_wayland_auto.Base.{true, ◌≤◌, ◌≡◌, refl, [], codes, some, none}
use py_wayland_auto.Outcome.{Exn, ok, raised}
use py_wayland_auto.Wire.{binary64}
use py_wayland_auto.TokenCache.{Files, no_faults, load}
use py_wayland_auto.Portal.World.{
  starting, started, stopped, on_create_session, on_select_devices, on_start, Env, World,
}
use py_wayland_auto.Portal.Start.{
  Results, single, absent, new_session, start, stop, begin, device_list,
}
use py_wayland_auto.Portal.Flow.{
  respond, on_closed, create_session_response, created, created_at, select_devices_response,
  selected, start_response,
}
use py_wayland_auto.Portal.Select.{select, select_without_token, select_request}
use py_wayland_auto.Portal.Link.{granted, choose_transport, handshake}
use py_wayland_auto.Portal.Flow.Invariant.{newest, InState}
use py_wayland_auto.Portal.Flow.Steps.{Reach, here, next, starts, responds, Reach-consistent}
use py_wayland_auto.Portal.Flow.Late
use py_wayland_auto.Portal.Flow.Late.{LinkedIn, answers, closes, Run-IsLinked}
use py_wayland_auto.Portal.Flow.Retry.{selects, token_selects, select-bounded}
use py_wayland_auto.Portal.Input.Refusal.{perform, type_of, perform-refused}

-- A portal and a server that answer everything.
abbrev pub willing : Env
willing = record {
  answer = λ log c. ok tt;
  keymap = λ log. none;
  float_of = λ n. some (binary64 0);
  zero_float = binary64 0;
  faults = λ log. no_faults;
}

abbrev pub no_files : Files
no_files = record { token = none; temp = none; dir_mode = 0o755 }

abbrev pub fresh : World
fresh = record { session = new_session none no_files; files = no_files; drawn = 0; log = [] }

abbrev no_results : Results
no_results = record { session_handle = none; restore_token = none; devices = absent }

abbrev session_made : Results
session_made = record { session_handle = some "/session/1"; restore_token = none; devices = absent }

abbrev allowed : Results
allowed = record { session_handle = none; restore_token = none; devices = single 3 }

abbrev after_start : World
after_start = (start willing fresh).1

abbrev after_create : World
after_create = (respond willing on_create_session 0 session_made after_start).1

abbrev after_select : World
after_select = (respond willing on_select_devices 0 no_results after_create).1

abbrev after_grant : World
after_grant = (respond willing on_start 0 allowed after_select).1

create_awaited :
    (newest after_start.log ≡ some on_create_session) × (after_start.session.state ≡ starting)
unfolding new_session start begin newest
create_awaited = (refl, refl)

select_awaited :
    (newest after_create.log ≡ some on_select_devices) × (after_create.session.state ≡ starting)
unfolding new_session start begin newest respond create_session_response created created_at select
    select_without_token select_request load
select_awaited = (refl, refl)

start_awaited : (newest after_select.log ≡ some on_start) × (after_select.session.state ≡ starting)
unfolding new_session start begin newest respond create_session_response created created_at select
    select_without_token select_request load select_devices_response selected
start_awaited = (refl, refl)

reached : Reach willing fresh after_grant
reached =
    next
      (next
        (next (next here starts)
          (responds on_create_session 0 session_made create_awaited.0 create_awaited.1))
        (responds on_select_devices 0 no_results select_awaited.0 select_awaited.1))
      (responds on_start 0 allowed start_awaited.0 start_awaited.1)

Reach-consistent_example : InState after_grant.session.state after_grant.log after_grant.session
Reach-consistent_example = Reach-consistent willing none fresh after_grant refl reached

-- It is the started state that was reached.
granted_state : after_grant.session.state ≡ started
unfolding new_session start begin newest respond create_session_response created created_at select
    select_without_token select_request load select_devices_response selected start_response granted
    device_list choose_transport handshake
granted_state = refl

-- The user allows the session after it was closed.
abbrev late_grant : World
late_grant = (respond willing on_start 0 allowed (on_closed after_select).1).1

late_grant_started : (late_grant.session.state ≡ started) × (late_grant.session.session_path ≡ none)
unfolding new_session start begin newest respond create_session_response created created_at select
    select_without_token select_request load select_devices_response selected start_response granted
    device_list choose_transport handshake on_closed
late_grant_started = (refl, refl)

Run-IsLinked_example : LinkedIn late_grant.session.state late_grant.session
Run-IsLinked_example = Run-IsLinked willing none fresh late_grant refl (
    Late.next
      (Late.next
        (Late.next
          (Late.next (Late.next Late.here Late.starts) (answers on_create_session 0 session_made))
          (answers on_select_devices 0 no_results))
        closes)
      (answers on_start 0 allowed))

-- The answer to CreateSession comes after `stop`.
abbrev late_session : World
late_session = (respond willing on_create_session 0 session_made (stop willing after_start).1).1

late_session_stopped :
    (late_session.session.state ≡ stopped) × (late_session.session.session_path ≡ some "/session/1")
unfolding new_session start begin newest respond create_session_response created created_at select
    select_without_token select_request load stop
late_session_stopped = (refl, refl)

perform-refused_example :
    (e : Exn) × (perform willing (type_of (codes "a")) fresh ≡ (raised e, fresh))
unfolding new_session
perform-refused_example = perform-refused willing fresh (λ e. cc) (type_of (codes "a"))

select-bounded_example :
    (selects (select willing true fresh).1.log ≤ 2)
    × (token_selects (select willing true fresh).1.log ≤ 1)
unfolding selects token_selects
select-bounded_example = select-bounded willing true fresh
