-- ===== src/Wayland/Messages.antt =====
-- pywaylandauto/backends/wayland.py: `pack_message`, `unpack_header` and `unpack_args`. Descriptors
-- travel beside the bytes: reading an argument `h` takes one off the list of those received, which
-- stays taken after an exception.
pub mod RoundTrip
use py_wayland_auto.Base.{
  ℕ, ◌+◌, ◌-◌, ◌*◌, ◌/◌, ◌%◌, List, [], ◌∷◌, ◌++◌, ltb, if◌then◌else◌, length, take, drop,
  replicate, Bytes, Text, bit_or,
}
use py_wayland_auto.Base.Int.{ℤ, pos}
use py_wayland_auto.Outcome
use py_wayland_auto.Outcome.{
  Result, ok, raised, value_error, attribute_error, index_error, struct_error,
}
use py_wayland_auto.Stateful.{Stateful, pure, raise, ◌>>=◌, lift}
use py_wayland_auto.Utf8.{encode}
use py_wayland_auto.Wire.{ByteOrder, put, get, pack_unsigned, pack_signed, signed, unpack_at}
use py_wayland_auto.Eis.Messages.{Arg, num, text, pop_fd, unpack_text}

-- A character of a signature: u, i, f, o, n, s, h, or one that the codec does not know.
pub data Kind : Type 0 where
  uint32 int32 fixed object_id new_id string handle unknown : Kind

-- `(4 - n % 4) % 4`
abbrev pub padding : ℕ → ℕ
padding n = (4 - n % 4) % 4

-- The bytes of a text: its length with the NUL, the bytes, the NUL, and padding.
unfoldable pub pack_text : ByteOrder → Text → Result Bytes
pack_text o t = Outcome.◌>>=◌ (encode t) λ coded.
    let raw = coded ++ 0 ∷ [] in
    Outcome.◌>>=◌ (pack_unsigned o 4 (pos (length raw)))
      λ size. ok (size ++ (raw ++ replicate (padding (length raw)) 0))

-- `(size << 16) | opcode`
abbrev pub shifted_or : ℕ → ℕ → ℕ
shifted_or size opcode =
    if ltb opcode 65536 then size * 65536 + opcode else bit_or (size * 65536) opcode

-- The descriptors that `send` takes from the arguments: numbers from 0 on, for an `h`.
abbrev pub descriptor : Kind → Arg → List ℤ
descriptor handle (num (pos n)) = pos n ∷ []
descriptor k a = []

unfoldable pub descriptors : List Kind → List Arg → List ℤ
descriptors [] args = []
descriptors (k ∷ sig) [] = []
descriptors (k ∷ sig) (a ∷ args) = descriptor k a ++ descriptors sig args

module _ (o : ByteOrder) where
  -- One round of the loop of `pack_message`, with the error of a wrong type of argument.
  unfoldable pub pack_arg : Kind → Arg → Result Bytes
  unfolding pack_text
  pack_arg uint32 (num v) = pack_unsigned o 4 v
  pack_arg int32 (num v) = pack_signed o v
  pack_arg fixed (num v) = pack_signed o v
  pack_arg object_id (num v) = pack_unsigned o 4 v
  pack_arg new_id (num v) = pack_unsigned o 4 v
  pack_arg string (text t) = pack_text o t
  pack_arg string a = raised attribute_error
  pack_arg handle a = ok []
  pack_arg unknown a = raised value_error
  pack_arg k a = raised struct_error

  -- The loop; `args[idx]` is out of range where the arguments end early, except at an `h`.
  unfoldable pub pack_args : List Kind → List Arg → Result Bytes
  pack_args [] args = ok []
  pack_args (handle ∷ sig) [] = pack_args sig []
  pack_args (unknown ∷ sig) [] = raised value_error
  pack_args (k ∷ sig) [] = raised index_error
  pack_args (k ∷ sig) (a ∷ args) =
      Outcome.◌>>=◌ (pack_arg k a)
        λ raw. Outcome.◌>>=◌ (pack_args sig args) λ rest. ok (raw ++ rest)

  -- `HEADER.pack(object_id, ((8 + len(payload)) << 16) | opcode) + bytes(payload)`
  unfoldable pub pack_message : ℕ → ℕ → List Kind → List Arg → Result Bytes
  pack_message obj opcode sig args = Outcome.◌>>=◌ (pack_args sig args) λ payload.
      Outcome.◌>>=◌ (pack_unsigned o 4 (pos obj)) λ first.
        Outcome.◌>>=◌ (pack_unsigned o 4 (pos (shifted_or (8 + length payload) opcode)))
          λ second. ok (first ++ (second ++ payload))

  -- The object, the size and the opcode.
  unfoldable pub unpack_header : Bytes → Result (ℕ × ℕ × ℕ)
  unpack_header raw =
      if ltb (length raw) 8
      then raised value_error
      else (let word = get o (take 4 (drop 4 raw)) in
          ok (get o (take 4 raw), word / 65536, word % 65536))

  abbrev pub unpack_word : (ℕ → Arg) → Bytes → ℕ → Stateful (List ℤ) (Arg × ℕ)
  unpack_word value raw p = lift (unpack_at o 4 raw p) >>= λ w. pure (value w, p + 4)

  -- One round of the loop of `unpack_args`: the value and the new offset.
  unfoldable pub unpack_arg : Kind → Bytes → ℕ → Stateful (List ℤ) (Arg × ℕ)
  unfolding unpack_text
  unpack_arg uint32 raw p = unpack_word (λ w. num (pos w)) raw p
  unpack_arg int32 raw p = unpack_word (λ w. num (signed w)) raw p
  unpack_arg fixed raw p = unpack_word (λ w. num (signed w)) raw p
  unpack_arg object_id raw p = unpack_word (λ w. num (pos w)) raw p
  unpack_arg new_id raw p = unpack_word (λ w. num (pos w)) raw p
  unpack_arg string raw p = do (t, q) ← lift (unpack_text o raw p); pure (text t, q)
  unpack_arg handle raw p = λ fds. (let (fd, left) = pop_fd fds in (ok (num fd, p), left))
  unpack_arg unknown raw p = raise value_error

  unfoldable pub unpack_args : List Kind → Bytes → ℕ → Stateful (List ℤ) (List Arg × ℕ)
  unpack_args [] raw p = pure ([], p)
  unpack_args (k ∷ sig) raw p = do
    (a, p') ← unpack_arg k raw p
    (args, q) ← unpack_args sig raw p'
    pure (a ∷ args, q)
