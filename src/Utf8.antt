-- ===== src/Utf8.antt =====
-- `str.encode("utf-8")` and `bytes.decode("utf-8", errors="replace")`, as the codecs of
-- pywaylandauto/backends/eis_messages.py and wayland.py use them.
pub mod RoundTrip
use py_wayland_auto.Base.{
  ℕ, zero, suc, ◌+◌, ◌-◌, ◌*◌, ◌/◌, ◌%◌, Bool, true, false, ◌&&◌, ◌||◌, List, [], ◌∷◌, ◌++◌, leb,
  ltb, ◌==◌, if◌then◌else◌, Text, Bytes,
}
use py_wayland_auto.Outcome.{Result, ok, raised, value_error, ◌>>=◌}

abbrev within : ℕ → ℕ → ℕ → Bool
within lo hi c = leb lo c && leb c hi

-- A code point that UTF-8 encodes: no surrogate.
abbrev pub is_scalar : ℕ → Bool
is_scalar c = leb c 0x10FFFF && (ltb c 0xD800 || ltb 0xDFFF c)

unfoldable pub encode_char : ℕ → Bytes
encode_char c =
    if ltb c 0x80
    then c ∷ []
    else if ltb c 0x800
    then (0xC0 + c / 64) ∷ (0x80 + c % 64) ∷ []
    else if ltb c 0x10000
    then (0xE0 + c / 4096) ∷ (0x80 + c / 64 % 64) ∷ (0x80 + c % 64) ∷ []
    else (0xF0 + c / 262144) ∷ (0x80 + c / 4096 % 64) ∷ (0x80 + c / 64 % 64) ∷ (0x80 + c % 64) ∷ []

-- A surrogate raises UnicodeEncodeError, which is a ValueError.
unfoldable pub encode : Text → Result Bytes
encode [] = ok []
encode (c ∷ cs) = do
  rest ← encode cs
  if is_scalar c then ok (encode_char c ++ rest) else raised value_error

-- Between two bytes: no character begun, or one that waits for a byte in a range and for `more`
-- bytes after that.
pub data State : Type 0 where
  start : State
  pending : (more acc lo hi : ℕ) → State

abbrev pub replacement : ℕ
replacement = 0xFFFD

-- What a byte at the start of a character does: characters put out, and the next state.
unfoldable pub lead : ℕ → Text × State
lead b =
    if ltb b 0x80
    then (b ∷ [], start)
    else if within 0xC2 0xDF b
    then ([], pending 0 (b - 0xC0) 0x80 0xBF)
    else if b == 0xE0
    then ([], pending 1 0 0xA0 0xBF)
    else if b == 0xED
    then ([], pending 1 13 0x80 0x9F)
    else if within 0xE1 0xEF b
    then ([], pending 1 (b - 0xE0) 0x80 0xBF)
    else if b == 0xF0
    then ([], pending 2 0 0x90 0xBF)
    else if within 0xF1 0xF3 b
    then ([], pending 2 (b - 0xF0) 0x80 0xBF)
    else if b == 0xF4
    then ([], pending 2 4 0x80 0x8F)
    else (replacement ∷ [], start)

-- The next byte of a character fits.
abbrev pub continue : ℕ → ℕ → Text × State
continue zero acc = (acc ∷ [], start)
continue (suc more) acc = ([], pending more acc 0x80 0xBF)

-- A byte that does not fit ends the character, which is replaced, and is read as a first byte.
unfoldable pub step : State → ℕ → Text × State
unfolding lead
step start b = lead b
step (pending more acc lo hi) b =
    if within lo hi b
    then continue more (acc * 64 + (b - 0x80))
    else (let (out, s) = lead b in (replacement ∷ out, s))

abbrev pub flush : State → Text
flush start = []
flush (pending more acc lo hi) = replacement ∷ []

unfoldable pub decode_from : State → Bytes → Text
decode_from s [] = flush s
decode_from s (b ∷ bs) = let (out, s') = step s b in out ++ decode_from s' bs

abbrev pub decode : Bytes → Text
decode = decode_from start
