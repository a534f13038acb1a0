-- ===== src/Protocol/Responses.antt =====
-- pywaylandauto/protocol.py: `encode_response` and `decode_response`.
use py_wayland_auto.Base.{
  ◌≡◌, ◌≤◌, refl, ap, ◌∙◌, true, false, Option, none, some, String, codes, length,
}
use py_wayland_auto.Base.Int.{ℤ}
use py_wayland_auto.Outcome.{Result, ok, raised, protocol_error, ◌>>=◌}
use py_wayland_auto.Protocol.{
  Json, null, boolean, integer, str, object, Members, empty, member, member_of, members, id_of,
  max_line, parse, invalid_json,
}
use py_wayland_auto.Protocol.RoundTrip.{parse-ok}

-- What `encode_response` is given: a result, or the code and the message of an error.
pub data Outgoing : Type 0 where
  result : Json → Outgoing
  error : String → String → Outgoing

-- What `decode_response` returns.
pub record Incoming : Type 0 where
  pub id : ℤ
  pub outgoing : Outgoing

-- `result if result is not None else {}`
abbrev pub or_empty : Json → Json
or_empty null = object empty
or_empty v = v

abbrev pub filled : Outgoing → Outgoing
filled (result v) = result (or_empty v)
filled (error code message) = error code message

-- The object that `encode_response` prints.
unfoldable pub response_json : ℤ → Outgoing → Json
response_json id (result v) =
    object
      (member "id" (integer id) (member "ok" (boolean true) (member "result" (or_empty v) empty)))
response_json id (error code message) = object (
    member "id" (integer id) (
      member "ok" (boolean false) (
        member "error" (object (member "code" (str code) (member "message" (str message) empty)))
          empty)))

-- `encode_response`, less the newline that ends the line.
unfoldable pub encode_response : (Json → String) → ℤ → Outgoing → String
unfolding response_json
encode_response dumps id outgoing = dumps (response_json id outgoing)

-- An `id` that is not an int is invalid JSON here.
abbrev pub response_id : Result ℤ → Result ℤ
response_id (ok n) = ok n
response_id (raised e) = raised (protocol_error invalid_json)

abbrev pub result_of : Option Json → Result Outgoing
result_of none = raised (protocol_error invalid_json)
result_of (some v) = ok (result v)

abbrev pub error_members : Option Json → Result Members
error_members (some (object ms)) = ok ms
error_members v = raised (protocol_error invalid_json)

abbrev pub code_of_error : Option Json → Result String
code_of_error (some (str code)) = ok code
code_of_error v = raised (protocol_error invalid_json)

-- `str(err.get("message", ""))`; `show` is `str` on what is not a str.
abbrev pub message_of : (Json → String) → Option Json → String
message_of show none = ""
message_of show (some (str s)) = s
message_of show (some v) = show v

module _ (show : Json → String) where
  abbrev pub error_of_members : Members → Result Outgoing
  error_of_members err = do
    code ← code_of_error (member_of "code" err)
    ok (error code (message_of show (member_of "message" err)))

  -- The two tests of `ok`.
  abbrev pub outgoing_of : Option Json → Members → Result Outgoing
  outgoing_of (some (boolean true)) ms = result_of (member_of "result" ms)
  outgoing_of (some (boolean false)) ms = error_members (member_of "error" ms) >>= error_of_members
  outgoing_of v ms = raised (protocol_error invalid_json)

  -- `decode_response` from the parsed value on.
  unfoldable pub response_of : Json → Result Incoming
  unfolding member_of
  response_of v = do
    ms ← members v
    id ← response_id (id_of (member_of "id" ms))
    outgoing ← outgoing_of (member_of "ok" ms) ms
    ok (record { id = id; outgoing = outgoing })

  -- `decode_response`
  unfoldable pub decode_response : (String → Option Json) → String → Result Incoming
  unfolding parse response_of
  decode_response loads line = parse loads line >>= response_of

  response_of-response_json :
      (id : ℤ) (out : Outgoing)
      → response_of (response_json id out) ≡ ok (record { id = id; outgoing = filled out })
  unfolding response_of response_json member_of
  response_of-response_json id (result v) = refl
  response_of-response_json id (error code message) = refl

  -- If the JSON parser reads back what the printer wrote for a response, and the response is of at
  -- most a line's length, it is decoded as it was encoded: the id, and the result or the error; a result null
  -- comes back as an empty object.
  pub decode_response-encode_response :
      (loads : String → Option Json) (dumps : Json → String) (id : ℤ) (out : Outgoing)
      → loads (dumps (response_json id out)) ≡ some (response_json id out)
      → length (codes (encode_response dumps id out)) ≤ max_line
      → decode_response loads (encode_response dumps id out)
        ≡ ok (record { id = id; outgoing = filled out })
  unfolding encode_response decode_response
  decode_response-encode_response loads dumps id out reads short =
      let v = response_json id out in
      ap (λ r. r >>= response_of) (parse-ok loads (dumps v) v reads short)
      ∙ response_of-response_json id out
