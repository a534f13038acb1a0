-- ===== src/Tests/Codec.antt =====
-- The EIS codec and the reassembly of its stream at concrete inputs.
use py_wayland_auto.Base.{
  ◌≡◌, ◌≢◌, ◌⊎◌, ◌++◌, refl, List, [], ◌∷◌, Bytes, codes, some, none, arith, replicate,
}
use py_wayland_auto.Base.Int.{pos, negsuc}
use py_wayland_auto.Outcome.{Result, ok}
use py_wayland_auto.Utf8.{encode, encode_char}
use py_wayland_auto.Wire.{little, big, get, put, pack_unsigned, pack_signed, binary64, Floats}
use py_wayland_auto.Eis.Messages.{
  Kind, int32, string, new_id, Arg, num, text, pack_args, pack_arg, pack_text, unpack_args, round4,
}
use py_wayland_auto.Eis.Messages.RoundTrip.{unpack-pack_args}
use py_wayland_auto.Eis.Frames.{Frame, next_frame, drain, pump_all}
use py_wayland_auto.Framing.{dispatch_all, stream}
use py_wayland_auto.Eis.Frames.Stream.{frame_bytes, next_frame-frame_bytes}
use py_wayland_auto.Eis.Frames.Chunks.{pump_all-stream}
use py_wayland_auto.Eis.Frames.Wedge.{drain_wedged}

-- Conversions of floats that know the number zero only.
abbrev pub floats : Floats
floats = record {
  to_single = λ x. some 0;
  of_single = λ w. binary64 0;
  of_int = λ n. some (binary64 0);
}

abbrev euro : Bytes
euro = 0xE2 ∷ 0x82 ∷ 0xAC ∷ []

encode-euro : encode (0x20AC ∷ []) ≡ ok euro
unfolding encode encode_char
encode-euro = refl

-- A name, a number below zero and a new object.
abbrev signature : List Kind
signature = string ∷ int32 ∷ new_id ∷ []

abbrev arguments : List Arg
arguments = text (codes "seat") ∷ num (negsuc 1) ∷ num (pos 7) ∷ []

abbrev packed : Bytes
packed =
    5 ∷ 0 ∷ 0 ∷ 0 ∷ b's' ∷ b'e' ∷ b'a' ∷ b't' ∷ 0 ∷ 0 ∷ 0 ∷ 0 ∷ 254 ∷ 255 ∷ 255 ∷ 255 ∷ 7 ∷ 0 ∷ 0
    ∷ 0 ∷ 0 ∷ 0 ∷ 0 ∷ 0 ∷ []

arguments-packed : pack_args little floats signature arguments ≡ ok packed
unfolding pack_args pack_arg pack_text pack_unsigned pack_signed put encode encode_char round4
arguments-packed = refl

unpack-pack_args_example :
    unpack_args little floats signature (9 ∷ packed) 1 (pos 3 ∷ []) ≡ ok (arguments, 25, pos 3 ∷ [])
unpack-pack_args_example =
    unpack-pack_args little floats signature arguments (9 ∷ packed) [] 1 (pos 3 ∷ [])
      (refl, (tt, (tt, tt))) arguments-packed refl

-- A dispatcher that keeps what it is given.
abbrev collect : Frame → List Frame → Result (Unit {0}) × List Frame
collect f seen = (ok tt, seen ++ f ∷ [])

abbrev ping : Frame
ping = record { obj = 2; opcode = 3; payload = 1 ∷ 2 ∷ [] }

abbrev done : Frame
done = record { obj = 5; opcode = 1; payload = [] }

abbrev two_frames : List Frame
two_frames = ping ∷ done ∷ []

-- The same bytes, cut inside both headers.
abbrev chunks : List Bytes
chunks =
    (2 ∷ 0 ∷ 0 ∷ 0 ∷ 0 ∷ [])
    ∷ (0 ∷ 0 ∷ 0 ∷ 18 ∷ 0 ∷ 0 ∷ 0 ∷ 3 ∷ 0 ∷ 0 ∷ 0 ∷ 1 ∷ 2 ∷ 5 ∷ 0 ∷ [])
    ∷ (0 ∷ 0 ∷ 0 ∷ 0 ∷ 0 ∷ 0 ∷ 16 ∷ 0 ∷ 0 ∷ 0 ∷ 1 ∷ 0 ∷ 0 ∷ 0 ∷ [])
    ∷ []

pump_all-stream_example :
    (left : Bytes) × (pump_all little collect 3 [] [] chunks ≡ some (ok tt, two_frames, left))
    × ((◌≢◌ {A = Result (Unit {0})} (ok tt) (ok tt)) ⊎ (left ≡ []))
unfolding dispatch_all stream frame_bytes put
pump_all-stream_example =
    pump_all-stream little collect chunks two_frames 3 [] (omega arith)
      (
        record { obj_fits = omega arith; size_fits = omega arith; opcode_fits = omega arith },
        (record { obj_fits = omega arith; size_fits = omega arith; opcode_fits = omega arith }, tt),
      )
      refl

next_frame-frame_bytes_example :
    next_frame big (frame_bytes big ping ++ (7 ∷ [])) ≡ some (ping, 7 ∷ [])
next_frame-frame_bytes_example =
    next_frame-frame_bytes big ping (7 ∷ [])
      (record { obj_fits = omega arith; size_fits = omega arith; opcode_fits = omega arith })

drain_wedged_example : drain little collect 1000 [] (replicate 16 0) ≡ none
unfolding get
drain_wedged_example =
    drain_wedged little collect (replicate 16 0) (omega arith) refl (λ s. refl) 1000 []
