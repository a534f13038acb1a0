-- ===== src/Protocol/RoundTrip.antt =====
-- A request that was encoded is decoded.
use py_wayland_auto.Base.{
  ◌≡◌, ◌≤◌, ap, ◌∙◌, false, Option, some, String, codes, length, str_eq, arith,
}
use py_wayland_auto.Base.Int.{ℤ}
use py_wayland_auto.Outcome.{ok, ◌>>=◌}
use py_wayland_auto.Protocol.{
  Json, Members, max_line, parse, decode_request, encode_request, request_json, request_of,
  member_of,
}

request_of-request_json :
    (id : ℤ) (method : String) (params : Members)
    → str_eq method "" ≡ false
    → request_of (request_json id method params)
      ≡ ok (record { id = id; method = method; params = params })
unfolding request_of request_json member_of
request_of-request_json id method params named = rw named

pub parse-ok :
    (loads : String → Option Json) (line : String) (v : Json)
    → loads line ≡ some v
    → length (codes line) ≤ max_line
    → parse loads line ≡ ok v
unfolding parse
parse-ok loads line v read short = ground arith

decode_request-ok :
    (loads : String → Option Json) (line : String) (v : Json)
    → parse loads line ≡ ok v
    → decode_request loads line ≡ request_of v
unfolding decode_request
decode_request-ok loads line v h = ap (λ r. r >>= request_of) h

-- If the JSON parser reads back what the printer wrote for a request, the request is of at most a
-- line's length, and its method is not empty, it is decoded as it was encoded.
pub decode_request-encode_request :
    (loads : String → Option Json) (dumps : Json → String) (id : ℤ) (method : String)
    (params : Members)
    → loads (dumps (request_json id method params)) ≡ some (request_json id method params)
    → str_eq method "" ≡ false
    → length (codes (encode_request dumps id method params)) ≤ max_line
    → decode_request loads (encode_request dumps id method params)
      ≡ ok (record { id = id; method = method; params = params })
unfolding encode_request
decode_request-encode_request loads dumps id method params reads named short =
    let v = request_json id method params in
    decode_request-ok loads _ v (parse-ok loads _ v reads short)
    ∙ request_of-request_json id method params named
