-- ===== src/Eis/Frames/Chunks.antt =====
-- The messages that are dispatched do not depend on how the stream is cut into chunks.
use py_wayland_auto.Base.{◌≢◌, ◌⊎◌, ℕ, ◌<◌, ◌≡◌, List, [], some, length, Bytes, All, concat}
use py_wayland_auto.Outcome.{Result, ok}
use py_wayland_auto.Wire.{ByteOrder}
use py_wayland_auto.Framing.{dispatch_all, stream}
use py_wayland_auto.Framing.Chunks.{pump_all-Delivers}
use py_wayland_auto.Eis.Frames.{Frame, next_frame, pump_all}
use py_wayland_auto.Eis.Frames.Stream.{FitsHeader, frame_bytes, next_frame-Reads}

-- However a stream of messages that fit their headers is cut into chunks, receiving the chunks
-- hands the dispatcher exactly these messages, in order, until it raises, and where it does not
-- raise nothing is left in the buffer. The loop ends in more rounds than there are messages.
pub pump_all-stream :
    {S : Type 0} (o : ByteOrder) (dispatch : Frame → S → Result (Unit {0}) × S)
    (chunks : List Bytes) (frames : List Frame) (fuel : ℕ) (s : S)
    → length frames < fuel
    → All FitsHeader frames
    → concat chunks ≡ stream (frame_bytes o) frames
    → let (r, s') = dispatch_all dispatch s frames in
      (left : Bytes) × (pump_all o dispatch fuel s [] chunks ≡ some (r, s', left))
      × ((r ≢ ok tt) ⊎ (left ≡ []))
unfolding pump_all
pump_all-stream o dispatch chunks frames fuel s short fits e =
    pump_all-Delivers (next_frame o) (frame_bytes o) FitsHeader (next_frame-Reads o) dispatch chunks
      frames fuel s short fits e
