-- ===== src/Tests/Commands.antt =====
-- The command line with a dialog that is shown first.
use py_wayland_auto.Base.{◌≡◌, refl, List, [], ◌∷◌, leb, Text, codes, length}
use py_wayland_auto.Outcome.{Result, ok, raised, remote_error, connection_error}
use py_wayland_auto.Protocol.{Json, null}
use py_wayland_auto.Spaces.{lstrip, rstrip, is_space}
use py_wayland_auto.Cli.{Calls, Link, split_chord, cmd_key}
use py_wayland_auto.Cli.Chords.{Grants, chord, key_request, granted_requests, cmd_key-Grants}

-- The first request is pending, the session is started at the third look.
abbrev pending_first : Calls → Result Json
pending_first [] = raised (remote_error "permission_pending" "")
pending_first (call ∷ calls) = ok null

abbrev dialog : Link
dialog = record {
  answer = λ calls method params. pending_first calls;
  is_started = λ calls. leb 3 (length calls);
  polls = λ calls. 60;
}

abbrev spec : Text
spec = codes "ctrl+ shift+t"

abbrev mods : List Text
mods = codes "ctrl" ∷ codes "shift" ∷ []

split_chord-spec : split_chord spec ≡ ok (mods, codes "t")
unfolding split_chord lstrip rstrip is_space
split_chord-spec = refl

cmd_key-Grants_example : Grants (cmd_key dialog spec) (chord dialog mods (codes "t"))
cmd_key-Grants_example = cmd_key-Grants dialog spec mods (codes "t") split_chord-spec

returns-spec : (cmd_key dialog spec []).0 ≡ ok 0
unfolding cmd_key lstrip rstrip is_space
returns-spec = refl

-- A connection that is lost behind the first request: the modifier stays down.
abbrev lost_second : Calls → Result Json
lost_second [] = ok null
lost_second (call ∷ calls) = raised connection_error

abbrev lost : Link
lost = record {
  answer = λ calls method params. lost_second calls;
  is_started = λ calls. leb 3 (length calls);
  polls = λ calls. 60;
}

granted_requests-lost :
    granted_requests (cmd_key lost (codes "ctrl+c") []).1
    ≡ key_request lost "press" (codes "ctrl") ∷ []
unfolding cmd_key lstrip rstrip is_space granted_requests
granted_requests-lost = refl
