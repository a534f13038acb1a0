-- ===== src/Eis/Frames.antt =====
-- pywaylandauto/backends/eis.py, `_pump_once`: how received bytes are cut into messages and handed
-- to the dispatcher, with the loops of Framing. The dispatcher and its state are parameters here.
pub mod Stream
pub mod Chunks
pub mod Wedge
use py_wayland_auto.Base.{
  ℕ, zero, suc, ◌+◌, ◌-◌, Bool, true, false, List, [], ◌∷◌, ◌++◌, Option, none, some, ltb,
  if◌then◌else◌, length, take, drop, Bytes,
}
use py_wayland_auto.Outcome.{Result, ok, raised}
use py_wayland_auto.Wire.{ByteOrder, get}
use py_wayland_auto.Framing

-- What `_dispatch` is given.
pub record Frame : Type 0 where
  pub obj : ℕ
  pub opcode : ℕ
  pub payload : Bytes

-- The third field of `unpack_header` here is the second of the wire: the length.
abbrev pub header_size : ByteOrder → Bytes → ℕ
header_size o buf = get o (take 4 (drop 8 buf))

-- `self._buf[:length]`, taken apart.
abbrev pub cut_frame : ByteOrder → ℕ → Bytes → Frame × Bytes
cut_frame o size buf = (
  record {
    obj = get o (take 8 buf);
    opcode = get o (take 4 (drop 12 buf));
    payload = take (size - 16) (drop 16 buf);
  },
  drop size buf,
)

-- The test of the loop and of its `break`: the next whole message, and the bytes behind it.
unfoldable pub next_frame : ByteOrder → Bytes → Option (Frame × Bytes)
next_frame o buf =
    if ltb (length buf) 16
    then none
    else if ltb (length buf) (header_size o buf)
    then none
    else some (cut_frame o (header_size o buf) buf)

module _ {S : Type 0} (o : ByteOrder) (dispatch : Frame → S → Result (Unit {0}) × S) where
  -- The `while` loop of `_pump_once`.
  unfoldable pub drain : ℕ → S → Bytes → Option (Result (Unit {0}) × S × Bytes)
  unfolding Framing.drain
  drain fuel s buf = Framing.drain (next_frame o) dispatch fuel s buf

  -- Calls of `_pump_once` until one raises, each of which receives a chunk.
  unfoldable pub pump_all : ℕ → S → Bytes → List Bytes → Option (Result (Unit {0}) × S × Bytes)
  unfolding Framing.pump_all Framing.drain
  pump_all fuel s buf chunks = Framing.pump_all (next_frame o) dispatch fuel s buf chunks
