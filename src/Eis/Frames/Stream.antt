-- ===== src/Eis/Frames/Stream.antt =====
-- The byte stream of a list of messages, and that `next_frame` finds the first of them.
use py_wayland_auto.Base.{
  ℕ, ◌+◌, ◌-◌, ◌^◌, ◌≤◌, ◌<◌, ◌≡◌, refl, ap, ◌∙◌, inl, inr, [], ◌++◌, Option, none, some, ltb,
  length, take, drop, Bytes, arith, append_assoc, length-append, take-append, drop-append,
  take-append_exact, drop-append_exact, drop-add, Bool-cases, length-drop,
}
use mathlib.Core.Option
use py_wayland_auto.Wire.{ByteOrder, put, get}
use py_wayland_auto.Wire.Laws.{take-put, field-append, length-put, drop-put}
use py_wayland_auto.Framing.{Reads}
use py_wayland_auto.Eis.Frames.{Frame, header_size, cut_frame, next_frame}

-- The fields fit the header: a u64 and two u32.
pub record FitsHeader (f : Frame) : Type 0 where
  pub obj_fits : f.obj < 256 ^ 8
  pub size_fits : 16 + length f.payload < 256 ^ 4
  pub opcode_fits : f.opcode < 256 ^ 4

-- The bytes of a message: the header, with the length of the whole, and the payload.
unfoldable pub frame_bytes : ByteOrder → Frame → Bytes
frame_bytes o f =
    put o 8 f.obj ++ (put o 4 (16 + length f.payload) ++ (put o 4 f.opcode ++ f.payload))

length-frame_bytes : (o : ByteOrder) (f : Frame) → length (frame_bytes o f) ≡ 16 + length f.payload
unfolding frame_bytes
length-frame_bytes o f = omega (
  arith,
  length-append (put o 8 f.obj)
      (put o 4 (16 + length f.payload) ++ (put o 4 f.opcode ++ f.payload)),
  length-append (put o 4 (16 + length f.payload)) (put o 4 f.opcode ++ f.payload),
  length-append (put o 4 f.opcode) f.payload,
  length-put o 8 f.obj,
  length-put o 4 (16 + length f.payload),
  length-put o 4 f.opcode,
)

-- `next_frame` by the parts of the header.
pub next_frame_found :
    (o : ByteOrder) (buf : Bytes) (size : ℕ)
    → 16 ≤ length buf
    → header_size o buf ≡ size
    → size ≤ length buf
    → next_frame o buf ≡ some (cut_frame o size buf)
unfolding next_frame
next_frame_found o buf size long sized whole =
    rw (← sized) (let fits : header_size o buf ≤ length buf = rw sized whole in ground arith)

next_frame_inv :
    (o : ByteOrder) (buf rest : Bytes) (f : Frame)
    → next_frame o buf ≡ some (f, rest)
    → (16 ≤ length buf)
      × (header_size o buf ≤ length buf)
      × (◌≡◌ {A = Option (Frame × Bytes)}
          (some (cut_frame o (header_size o buf) buf))
          (some (f, rest)))
unfolding next_frame
next_frame_inv o buf rest f h = elim (Bool-cases (ltb (length buf) 16)) [
  | inl short ↦
      (let e : ◌≡◌ {A = Option (Frame × Bytes)} none (some (f, rest)) =
          rw (short, next_frame) at h in
        cc)
  | inr long ↦ elim (Bool-cases (ltb (length buf) (header_size o buf))) [
    | inl part ↦
        (let e : ◌≡◌ {A = Option (Frame × Bytes)} none (some (f, rest)) =
            rw (long, part, next_frame) at h in
          cc)
    | inr whole ↦ (ground arith, ground arith, rw (long, whole, next_frame) at h)
  ]
]

cut_frame-append :
    (o : ByteOrder) (size : ℕ) (buf more : Bytes)
    → 16 ≤ length buf
    → size ≤ length buf
    → cut_frame o size (buf ++ more) ≡ (let (f, rest) = cut_frame o size buf in (f, rest ++ more))
cut_frame-append o size buf more long whole =
    let obj_eq = field-append 0 8 buf more (omega arith) in
    let opcode_eq = field-append 12 4 buf more (omega arith) in
    let payload_eq : take (size - 16) (drop 16 (buf ++ more)) ≡ take (size - 16) (drop 16 buf) =
      ap (take (size - 16)) (drop-append 16 buf more long)
      ∙ take-append (size - 16) (drop 16 buf) more (omega (arith, length-drop 16 buf)) in
    λ i. (
      record { obj = get o (obj_eq i); opcode = get o (opcode_eq i); payload = payload_eq i },
      drop-append size buf more whole i,
    )

-- More bytes behind a whole message change nothing of it.
pub next_frame-append :
    (o : ByteOrder) (buf more rest : Bytes) (f : Frame)
    → next_frame o buf ≡ some (f, rest)
    → next_frame o (buf ++ more) ≡ some (f, rest ++ more)
next_frame-append o buf more rest f h =
    let (long, whole, same) = next_frame_inv o buf rest f h in
    let size : header_size o (buf ++ more) ≡ header_size o buf =
      ap (get o) (field-append 8 4 buf more (omega arith)) in
    next_frame_found o (buf ++ more) (header_size o buf) (omega (arith, length-append buf more))
      size (omega (arith, length-append buf more))
    ∙ ap some (cut_frame-append o (header_size o buf) buf more long whole)
    ∙ ap (λ r. Option.map (λ p. (p.0, p.1 ++ more)) r) same

-- `next_frame` takes the first message off a stream.
pub next_frame-frame_bytes :
    (o : ByteOrder) (f : Frame) (rest : Bytes)
    → FitsHeader f
    → next_frame o (frame_bytes o f ++ rest) ≡ some (f, rest)
unfolding frame_bytes
next_frame-frame_bytes o f rest fits =
    let size : ℕ = 16 + length f.payload in
    let whole : Bytes = frame_bytes o f ++ rest in
    let at0 : drop 0 whole
        ≡ put o 8 f.obj ++ (put o 4 size ++ (put o 4 f.opcode ++ (f.payload ++ rest))) =
      append_assoc (put o 8 f.obj) (put o 4 size ++ (put o 4 f.opcode ++ f.payload)) rest
      ∙ ap (λ b. put o 8 f.obj ++ b)
          (append_assoc (put o 4 size) (put o 4 f.opcode ++ f.payload) rest
            ∙ ap (λ b. put o 4 size ++ b) (append_assoc (put o 4 f.opcode) f.payload rest)) in
    let at8 = drop-put o 8 f.obj whole _ 0 at0 in
    let at12 = drop-put o 4 size whole _ 8 at8 in
    let at16 = drop-put o 4 f.opcode whole _ 12 at12 in
    let long : length whole ≡ size + length rest =
      length-append (frame_bytes o f) rest ∙ ap (λ n. n + length rest) (length-frame_bytes o f) in
    let obj_eq = take-put o 8 f.obj whole _ 0 fits.obj_fits at0 in
    let size_eq = take-put o 4 size whole _ 8 fits.size_fits at8 in
    let opcode_eq = take-put o 4 f.opcode whole _ 12 fits.opcode_fits at12 in
    let payload_eq : take (size - 16) (drop 16 whole) ≡ f.payload =
      ap (take (size - 16)) at16 ∙ take-append_exact (size - 16) f.payload rest (omega arith) in
    let rest_eq : drop size whole ≡ rest =
      drop-add 16 (length f.payload) whole
      ∙ ap (drop (length f.payload)) at16
      ∙ drop-append_exact (length f.payload) f.payload rest refl in
    next_frame_found o whole size (omega (arith, long)) size_eq (omega (arith, long)) ∙ λ i.
    some (record { obj = obj_eq i; opcode = opcode_eq i; payload = payload_eq i }, rest_eq i)

next_frame-nil : (o : ByteOrder) → next_frame o [] ≡ none
unfolding next_frame
next_frame-nil o = refl

pub next_frame-Reads : (o : ByteOrder) → Reads (next_frame o) (frame_bytes o) FitsHeader
next_frame-Reads o = record {
  first = next_frame-frame_bytes o;
  more = λ bs later rest f. next_frame-append o bs later rest f;
  empty = next_frame-nil o;
}
