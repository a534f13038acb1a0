-- ===== src/Wire.antt =====
-- Python's `struct` as the two wire codecs use it: unsigned and signed integers of fixed size in
-- the machine's byte order (`=I`, `=i`, `=Q`), and single-precision floats (`=f`).
pub mod Laws
use mathlib.Core.List.{reverse}
use py_wayland_auto.Base.{
  ℕ, zero, suc, ◌+◌, ◌-◌, ◌*◌, ◌/◌, ◌%◌, ◌^◌, Bool, true, false, List, [], ◌∷◌, ◌++◌, Option, none,
  some, leb, ltb, if◌then◌else◌, length, take, drop, Bytes,
}
use py_wayland_auto.Base.Int.{ℤ, pos, negsuc}
use py_wayland_auto.Outcome.{Result, ok, raised, struct_error, ◌>>=◌}

-- The machine's byte order; both are modelled.
pub data ByteOrder : Type 0 where
  little big : ByteOrder

-- The lowest byte first.
abbrev pub low_bytes : ℕ → ℕ → Bytes
low_bytes zero n = []
low_bytes (suc k) n = n % 256 ∷ low_bytes k (n / 256)

abbrev pub low_value : Bytes → ℕ
low_value [] = 0
low_value (b ∷ bs) = b + 256 * low_value bs

abbrev pub ordered : ByteOrder → Bytes → Bytes
ordered little bs = bs
ordered big bs = reverse bs

unfoldable pub put : ByteOrder → ℕ → ℕ → Bytes
put o size n = ordered o (low_bytes size n)

unfoldable pub get : ByteOrder → Bytes → ℕ
get o bs = low_value (ordered o bs)

-- `struct.pack` of an unsigned integer of `size` bytes; out of range raises struct.error.
unfoldable pub pack_unsigned : ByteOrder → ℕ → ℤ → Result Bytes
pack_unsigned o size (pos n) = if ltb n (256 ^ size) then ok (put o size n) else raised struct_error
pack_unsigned o size (negsuc n) = raised struct_error

-- `struct.pack("=i", n)`
unfoldable pub pack_signed : ByteOrder → ℤ → Result Bytes
pack_signed o (pos n) = if ltb n (2 ^ 31) then ok (put o 4 n) else raised struct_error
pack_signed o (negsuc n) =
    if ltb n (2 ^ 31) then ok (put o 4 (2 ^ 32 - n - 1)) else raised struct_error

abbrev pub signed : ℕ → ℤ
signed w = if ltb w (2 ^ 31) then pos w else negsuc (2 ^ 32 - w - 1)

-- `struct.unpack_from` of `size` bytes at an offset; too few raise struct.error.
unfoldable pub unpack_at : ByteOrder → ℕ → Bytes → ℕ → Result ℕ
unpack_at o size data_bytes p =
    let raw = take size (drop p data_bytes) in
    if leb size (length raw) then ok (get o raw) else raised struct_error

-- A Python float is its IEEE 754 binary64 pattern. Conversions are the interpreter's.
pub data Float : Type 0 where
  binary64 : ℕ → Float

-- `struct`'s conversion to and from a binary32 pattern; a finite float out of range raises
-- OverflowError.
pub record Floats : Type 0 where
  pub to_single : Float → Option ℕ
  pub of_single : ℕ → Float
  pub of_int : ℤ → Option Float
