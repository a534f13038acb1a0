-- ===== src/Tests/Calls.antt =====
-- The client of the daemon at concrete inputs.
use py_wayland_auto.Base.{
  ◌≢◌, refl, true, [], ◌∷◌, Option, none, some, if◌then◌else◌, text_eq, codes, String, str_eq,
  arith,
}
use py_wayland_auto.Base.Int.{pos}
use py_wayland_auto.Protocol.{Json, null, object, empty}
use py_wayland_auto.Protocol.Responses.{
  Outgoing, result, error, filled, response_json, encode_response, decode_response,
}
use py_wayland_auto.Utf8.{encode, encode_char}
use py_wayland_auto.Client.{
  Client, new_client, accepted, refused, silent, chunk, Peer, break_line, line_response,
  request_bytes, request, connect,
}
use py_wayland_auto.Client.Lines.{chunks_of}
use py_wayland_auto.Client.Answers.{Answered}
use py_wayland_auto.Client.Requests.{posted, request-Answered}
use py_wayland_auto.Client.Ends.{Connects, connect-Connects, request_ends}

-- What the daemon answers: the request is number 2, and its error is a refusal.
abbrev refusal : Outgoing
refusal = error "permission_denied" "no"

-- Two lines are known: "new" is the answer to request 2, any other is one to request 1.
abbrev loads : String → Option Json
loads line =
    if str_eq line "new"
    then some (response_json (pos 2) refusal)
    else some (response_json (pos 1) (result null))

abbrev peer : Peer
peer = record {
  loads = loads;
  dumps = λ v. "new";
  show = λ v. "";
  text_of = λ bs. if text_eq bs (codes "new") then some "new" else some "old";
  accepts = λ sent raw. true;
}

-- A client whose first request timed out, with the beginning of its late response.
abbrev caller : Client
caller = record {
  auto_spawn = true;
  can_spawn = true;
  connected = true;
  buf = codes "ol";
  req_id = 1;
  sent = [];
  spawns = 0;
}

-- The late response is passed over, and the error is raised; "x" is kept.
request-Answered_example : Answered (posted (codes "new\n") caller) (filled refusal) (codes "x") (
    request peer 2 accepted accepted []
      (chunks_of (codes "d\nne" ∷ codes "w\nx" ∷ []))
      "ping"
      empty
      caller)
unfolding encode encode_char encode_response response_json break_line line_response decode_response
    request_bytes
request-Answered_example =
    request-Answered peer (codes "old" ∷ []) 2 accepted accepted [] caller
      (codes "d\nne" ∷ codes "w\nx" ∷ []) "ping" empty (codes "new\n") (codes "new") (codes "x")
      refusal refl refl refl
      (record {
        coded = refl;
        text_back = refl;
        value_back = refl;
        no_newline = refl;
        short = omega arith;
      })
      (omega arith)
      (
        (
          record { id = pos 1; outgoing = result (object empty) },
          record { is_line = refl; decoded = refl },
          refl,
        ),
        tt,
      )
      (tt, (tt, tt)) refl

request_ends_example :
    request peer 9 accepted accepted [] (chunk (codes "d\nold") ∷ silent ∷ []) "ping" empty caller
    ≢ none
request_ends_example =
    request_ends peer 9 accepted accepted [] (chunk (codes "d\nold") ∷ silent ∷ []) "ping" empty
      caller (omega arith)

-- Refused, a daemon is started, refused again, and accepted.
connect-Connects_example :
    Connects
      (new_client true true)
      refused
      refused
      (accepted ∷ [])
      (connect refused refused (accepted ∷ []) (new_client true true))
connect-Connects_example = connect-Connects refused refused (accepted ∷ []) (new_client true true)
