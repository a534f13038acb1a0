-- ===== src/Eis/Frames/Wedge.antt =====
-- A header whose length field is 0.
use py_wayland_auto.Base.{ℕ, ◌≤◌, ◌≡◌, none, length, Bytes, arith}
use py_wayland_auto.Outcome.{Result, ok}
use py_wayland_auto.Wire.{ByteOrder}
use py_wayland_auto.Eis.Frames.{Frame, next_frame, header_size, cut_frame, drain}
use py_wayland_auto.Framing.Wedge.{drain_stuck}
use py_wayland_auto.Eis.Frames.Stream.{next_frame_found}

-- The message that such a header stands for: it takes nothing off the buffer.
abbrev pub empty_frame : ByteOrder → Bytes → Frame
empty_frame o buf = (cut_frame o 0 buf).0

-- Behind a header whose length field is 0 the loop makes no progress: if the dispatcher does not
-- raise on that message, it is over after no number of rounds.
pub drain_wedged :
    {S : Type 0} (o : ByteOrder) (dispatch : Frame → S → Result (Unit {0}) × S) (buf : Bytes)
    → 16 ≤ length buf
    → header_size o buf ≡ 0
    → ((s : S) → (dispatch (empty_frame o buf) s).0 ≡ ok tt)
    → (fuel : ℕ) (s : S) → drain o dispatch fuel s buf ≡ none
unfolding drain
drain_wedged o dispatch buf long none_sized calm fuel s =
    drain_stuck (next_frame o) dispatch buf (empty_frame o buf)
      (next_frame_found o buf 0 long none_sized (omega arith)) calm fuel s
