-- ===== src/Eis/Messages.antt =====
-- pywaylandauto/backends/eis_messages.py: `pack_message`, `unpack_header` and `unpack_args`.
pub mod Texts
pub mod RoundTrip
use py_wayland_auto.Base.{
  ℕ, ◌+◌, ◌-◌, ◌*◌, ◌/◌, List, [], ◌∷◌, ◌++◌, Option, none, some, leb, ltb, ◌==◌, Bool, true, false,
  if◌then◌else◌, length, take, drop, replicate, Bytes, Text,
}
use py_wayland_auto.Base.Int.{ℤ, pos, negsuc}
use py_wayland_auto.Outcome.{
  Result, ok, raised, value_error, attribute_error, index_error, overflow_error, struct_error,
  ◌>>=◌,
}
use py_wayland_auto.Utf8.{encode, decode}
use py_wayland_auto.Wire.{
  ByteOrder, put, get, pack_unsigned, pack_signed, signed, unpack_at, Float, Floats,
}

-- A character of a signature: u, i, f, x, o, t, n, s, h, or one that the codec does not know.
pub data Kind : Type 0 where
  uint32 int32 single int64 object_id uint64 new_id string handle unknown : Kind

-- An argument of a message.
pub data Arg : Type 0 where
  num : ℤ → Arg
  real : Float → Arg
  text : Text → Arg

-- `_round4`
unfoldable pub round4 : ℕ → ℕ
round4 n = (n + 3) / 4 * 4

-- The bytes of a text: its length with the NUL, the bytes, the NUL, and padding.
unfoldable pub pack_text : ByteOrder → Text → Result Bytes
unfolding round4
pack_text o t = do
  coded ← encode t
  let raw = coded ++ 0 ∷ []
  size ← pack_unsigned o 4 (pos (length raw))
  ok (size ++ (raw ++ replicate (round4 (length raw) - length raw) 0))

unfoldable pub pack_single : ByteOrder → Option ℕ → Result Bytes
pack_single o none = raised overflow_error
pack_single o (some w) = ok (put o 4 w)

-- `fds.pop(0) if fds else -1`
abbrev pub pop_fd : List ℤ → ℤ × List ℤ
pop_fd [] = (negsuc 0, [])
pop_fd (fd ∷ fds) = (fd, fds)

-- `raw.rstrip(b"\0")`
abbrev pub keep_nul : ℕ → Bytes → Bytes
keep_nul b [] = if b == 0 then [] else b ∷ []
keep_nul b (c ∷ cs) = b ∷ c ∷ cs

abbrev pub rstrip_nul : Bytes → Bytes
rstrip_nul [] = []
rstrip_nul (b ∷ bs) = keep_nul b (rstrip_nul bs)

-- A text in a message, and the offset behind it.
unfoldable pub unpack_text : ByteOrder → Bytes → ℕ → Result (Text × ℕ)
unfolding round4
unpack_text o raw p = do
  size ← unpack_at o 4 raw p
  ok (decode (rstrip_nul (take size (drop (p + 4) raw))), p + 4 + round4 size)

module _ (o : ByteOrder) (fl : Floats) where
  -- An integer for an `f` is converted to a float first.
  abbrev single_of_int : Option Float → Option ℕ
  single_of_int none = none
  single_of_int (some x) = fl.to_single x

  -- One round of the loop of `pack_message`, with the error of a wrong type of argument.
  unfoldable pub pack_arg : Kind → Arg → Result Bytes
  unfolding pack_text pack_single
  pack_arg uint32 (num v) = pack_unsigned o 4 v
  pack_arg int32 (num v) = pack_signed o v
  pack_arg single (real x) = pack_single o (fl.to_single x)
  pack_arg single (num v) = pack_single o (single_of_int (fl.of_int v))
  pack_arg int64 (num v) = pack_unsigned o 8 v
  pack_arg object_id (num v) = pack_unsigned o 8 v
  pack_arg uint64 (num v) = pack_unsigned o 8 v
  pack_arg new_id (num v) = pack_unsigned o 8 v
  pack_arg string (text t) = pack_text o t
  pack_arg string a = raised attribute_error
  pack_arg handle a = ok []
  pack_arg unknown a = raised value_error
  pack_arg k a = raised struct_error

  -- The loop; `args[idx]` is out of range where the arguments end early, except at an `h`.
  unfoldable pub pack_args : List Kind → List Arg → Result Bytes
  pack_args [] args = ok []
  pack_args (handle ∷ sig) [] = pack_args sig []
  pack_args (unknown ∷ sig) [] = raised value_error
  pack_args (k ∷ sig) [] = raised index_error
  pack_args (k ∷ sig) (a ∷ args) = do
    raw ← pack_arg k a
    rest ← pack_args sig args
    ok (raw ++ rest)

  -- `HEADER.pack(object_id, 16 + len(payload), opcode) + bytes(payload)`
  unfoldable pub pack_message : ℕ → ℕ → List Kind → List Arg → Result Bytes
  pack_message obj opcode sig args = do
    payload ← pack_args sig args
    first ← pack_unsigned o 8 (pos obj)
    second ← pack_unsigned o 4 (pos (16 + length payload))
    third ← pack_unsigned o 4 (pos opcode)
    ok (first ++ (second ++ (third ++ payload)))

  unfoldable pub unpack_header : Bytes → Result (ℕ × ℕ × ℕ)
  unpack_header raw =
      if ltb (length raw) 16
      then raised value_error
      else ok (get o (take 8 raw), get o (take 4 (drop 8 raw)), get o (take 4 (drop 12 raw)))

  -- One round of the loop of `unpack_args`: the value, the new offset, the descriptors left.
  unfoldable pub unpack_arg : Kind → Bytes → ℕ → List ℤ → Result (Arg × ℕ × List ℤ)
  unfolding unpack_text
  unpack_arg uint32 raw p fds = do w ← unpack_at o 4 raw p; ok (num (pos w), p + 4, fds)
  unpack_arg int32 raw p fds = do w ← unpack_at o 4 raw p; ok (num (signed w), p + 4, fds)
  unpack_arg single raw p fds = do w ← unpack_at o 4 raw p; ok (real (fl.of_single w), p + 4, fds)
  unpack_arg string raw p fds = do (t, q) ← unpack_text o raw p; ok (text t, q, fds)
  unpack_arg handle raw p fds = let (fd, rest) = pop_fd fds in ok (num fd, p, rest)
  unpack_arg unknown raw p fds = raised value_error
  unpack_arg k raw p fds = do w ← unpack_at o 8 raw p; ok (num (pos w), p + 8, fds)

  unfoldable pub unpack_args : List Kind → Bytes → ℕ → List ℤ → Result (List Arg × ℕ × List ℤ)
  unpack_args [] raw p fds = ok ([], p, fds)
  unpack_args (k ∷ sig) raw p fds = do
    (a, p', fds') ← unpack_arg k raw p fds
    (args, q, left) ← unpack_args sig raw p' fds'
    ok (a ∷ args, q, left)
