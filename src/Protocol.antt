-- ===== src/Protocol.antt =====
-- pywaylandauto/protocol.py: requests as JSON values, and what `decode_request` accepts. The JSON
-- parser and printer of the standard library, `json.loads` and `json.dumps`, are parameters.
pub mod RoundTrip
pub mod Responses
use py_wayland_auto.Base.{
  ℕ, Bool, true, false, [], ◌∷◌, Option, none, some, ltb, str_eq, String, codes, length,
  if◌then◌else◌,
}
use py_wayland_auto.Base.Int.{ℤ, pos}
use py_wayland_auto.Outcome.{Exn, Result, ok, raised, protocol_error, ◌>>=◌, check}
use py_wayland_auto.Wire.{Float}

-- A JSON value; an object lists its members, the last one of a name first.
mutual
  pub data Json : Type 0 where
    null : Json
    boolean : Bool → Json
    integer : ℤ → Json
    real : Float → Json
    str : String → Json
    array : Items → Json
    object : Members → Json

  pub data Items : Type 0 where
    nil : Items
    item : Json → Items → Items

  pub data Members : Type 0 where
    empty : Members
    member : String → Json → Members → Members

-- `obj.get(key)`
unfoldable pub member_of : String → Members → Option Json
member_of key empty = none
member_of key (member k v rest) = elim (str_eq k key) [ true ↦ some v | false ↦ member_of key rest ]

abbrev pub max_line : ℕ
max_line = 1048576

abbrev pub invalid_json : String
invalid_json = "invalid_json"

abbrev pub invalid_params : String
invalid_params = "invalid_params"

abbrev pub method_not_found : String
method_not_found = "method_not_found"

-- What `decode_request` returns.
pub record Request : Type 0 where
  pub id : ℤ
  pub method : String
  pub params : Members

abbrev pub members : Json → Result Members
members (object ms) = ok ms
members v = raised (protocol_error invalid_json)

-- `isinstance(…, int)`, which a bool passes.
abbrev pub id_of : Option Json → Result ℤ
id_of (some (integer n)) = ok n
id_of (some (boolean true)) = ok (pos 1)
id_of (some (boolean false)) = ok (pos 0)
id_of v = raised (protocol_error invalid_params)

abbrev pub nonempty : String → Result String
nonempty s = if str_eq s "" then raised (protocol_error invalid_params) else ok s

abbrev pub method_of : Option Json → Result String
method_of (some (str s)) = nonempty s
method_of v = raised (protocol_error invalid_params)

abbrev pub params_of : Option Json → Result Members
params_of none = ok empty
params_of (some (object ms)) = ok ms
params_of (some v) = raised (protocol_error invalid_params)

abbrev pub or_invalid : Option Json → Result Json
or_invalid none = raised (protocol_error invalid_json)
or_invalid (some v) = ok v

-- `decode_request` from the parsed value on.
unfoldable pub request_of : Json → Result Request
unfolding member_of
request_of v = do
  ms ← members v
  id ← id_of (member_of "id" ms)
  method ← method_of (member_of "method" ms)
  params ← params_of (member_of "params" ms)
  ok (record { id = id; method = method; params = params })

module _ (loads : String → Option Json) where
  -- `_loads`
  unfoldable pub parse : String → Result Json
  parse line =
      if ltb max_line (length (codes line))
      then raised (protocol_error invalid_json)
      else or_invalid (loads line)

  -- `decode_request`
  unfoldable pub decode_request : String → Result Request
  unfolding parse request_of
  decode_request line = parse line >>= request_of

-- The object that `encode_request` prints.
unfoldable pub request_json : ℤ → String → Members → Json
request_json id method params = object (
    member "id" (integer id) (member "method" (str method) (member "params" (object params) empty)))

-- `encode_request`, less the newline that ends the line.
unfoldable pub encode_request : (Json → String) → ℤ → String → Members → String
unfolding request_json
encode_request dumps id method params = dumps (request_json id method params)
