-- ===== src/Daemon/Params.antt =====
-- pywaylandauto/daemon.py, `_param`, and what `_dispatch` does with optional parameters.
use py_wayland_auto.Base.{
  ◌^◌, Bool, true, false, not, ◌||◌, Option, none, some, str_eq, String, codes, ◌==◌,
}
use py_wayland_auto.Base.Int.{pos, nonzero}
use py_wayland_auto.Outcome.{Result, ok, raised, protocol_error, overflow_error}
use py_wayland_auto.Wire.{Float, binary64}
use py_wayland_auto.Keysyms.{Name}
use py_wayland_auto.Protocol.{
  Json, null, boolean, integer, real, str, array, object, nil, item, empty, member, invalid_params,
}

-- `_param(params, key, (int, float))`, and `float` of it.
abbrev pub or_overflow : Option Float → Result Float
or_overflow none = raised overflow_error
or_overflow (some x) = ok x

abbrev pub invalid : {A : Type 0} → Result A
invalid = raised (protocol_error invalid_params)

-- `_param(params, key, (str, int))`
abbrev pub name_param : Option Json → Result Name
name_param (some (str s)) = ok (Name.str (codes s))
name_param (some (integer n)) = ok (Name.int n)
name_param v = invalid

-- `_param(params, key, (str,))`
abbrev pub text_param : Option Json → Result String
text_param (some (str s)) = ok s
text_param v = invalid

-- `params.get("button", "left")`
abbrev pub button_param : Option Json → Name
button_param none = Name.str (codes "left")
button_param (some (str s)) = Name.str (codes s)
button_param (some (integer n)) = Name.int n
button_param (some (boolean true)) = Name.int (pos 1)
button_param (some (boolean false)) = Name.int (pos 0)
button_param (some v) = Name.other

-- `bool(params.get("discrete", True))`
abbrev pub truth : Option Json → Bool
truth none = true
truth (some null) = false
truth (some (boolean b)) = b
truth (some (integer n)) = nonzero n
truth (some (real (binary64 w))) = not (w == 0 || w == 2 ^ 63)
truth (some (str s)) = not (str_eq s "")
truth (some (array nil)) = false
truth (some (array (item v vs))) = true
truth (some (object empty)) = false
truth (some (object (member k v ms))) = true
