-- ===== src/Wayland/Connection/Stream.antt =====
-- The byte stream of messages, and that `next_frame` finds the first of them.
use py_wayland_auto.Base.{
  ℕ, ◌+◌, ◌-◌, ◌*◌, ◌/◌, ◌%◌, ◌^◌, ◌≤◌, ◌<◌, ◌≡◌, refl, ap, ◌∙◌, inl, inr, [], ◌++◌, Option, none,
  some, ltb, length, take, drop, Bytes, arith, append_assoc, length-append, take-append,
  drop-append, take-append_exact, drop-append_exact, drop-add, Bool-cases, length-drop,
}
use mathlib.Core.Option
use py_wayland_auto.Wire.{ByteOrder, put, get}
use py_wayland_auto.Wire.Laws.{length-put, drop-put, take-put, field-append}
use py_wayland_auto.Framing.{Reads}
use py_wayland_auto.Wayland.Connection.{Frame, word_at, header_size, cut_frame, next_frame}

-- The fields fit the header: a word, and two halves of one.
pub record FitsHeader (f : Frame) : Type 0 where
  pub obj_fits : f.obj < 256 ^ 4
  pub size_fits : 8 + length f.payload < 65536
  pub opcode_fits : f.opcode < 65536

-- The second word of a header.
abbrev pub second : Frame → ℕ
second f = (8 + length f.payload) * 65536 + f.opcode

-- The bytes of a message: the header, with the length of the whole, and the payload.
unfoldable pub frame_bytes : ByteOrder → Frame → Bytes
frame_bytes o f = put o 4 f.obj ++ (put o 4 (second f) ++ f.payload)

length-frame_bytes : (o : ByteOrder) (f : Frame) → length (frame_bytes o f) ≡ 8 + length f.payload
unfolding frame_bytes
length-frame_bytes o f = omega (
  arith,
  length-append (put o 4 f.obj) (put o 4 (second f) ++ f.payload),
  length-append (put o 4 (second f)) f.payload,
  length-put o 4 f.obj,
  length-put o 4 (second f),
)

-- `next_frame` by the parts of the header.
next_frame_found :
    (o : ByteOrder) (buf : Bytes) (size : ℕ)
    → 8 ≤ length buf
    → header_size o buf ≡ size
    → size ≤ length buf
    → next_frame o buf ≡ some (cut_frame o size buf)
unfolding next_frame
next_frame_found o buf size long sized whole =
    rw (← sized) (let fits : header_size o buf ≤ length buf = rw sized whole in ground arith)

next_frame_inv :
    (o : ByteOrder) (buf rest : Bytes) (f : Frame)
    → next_frame o buf ≡ some (f, rest)
    → (8 ≤ length buf)
      × (header_size o buf ≤ length buf)
      × (◌≡◌ {A = Option (Frame × Bytes)}
          (some (cut_frame o (header_size o buf) buf))
          (some (f, rest)))
unfolding next_frame
next_frame_inv o buf rest f h = elim (Bool-cases (ltb (length buf) 8)) [
  | inl short ↦
      (let e : ◌≡◌ {A = Option (Frame × Bytes)} none (some (f, rest)) =
          rw (short, next_frame) at h in
        cc)
  | inr long ↦ elim (Bool-cases (ltb (length buf) (header_size o buf))) [
    | inl part ↦
        (let e : ◌≡◌ {A = Option (Frame × Bytes)} none (some (f, rest)) =
            rw (long, part, next_frame) at h in
          cc)
    | inr whole ↦ (ground arith, ground arith, rw (long, whole, next_frame) at h)
  ]
]

cut_frame-append :
    (o : ByteOrder) (size : ℕ) (buf more : Bytes)
    → 8 ≤ length buf
    → size ≤ length buf
    → cut_frame o size (buf ++ more) ≡ (let (f, rest) = cut_frame o size buf in (f, rest ++ more))
cut_frame-append o size buf more long whole =
    let obj_eq = field-append 0 4 buf more (omega arith) in
    let word_eq = field-append 4 4 buf more (omega arith) in
    let payload_eq : take (size - 8) (drop 8 (buf ++ more)) ≡ take (size - 8) (drop 8 buf) =
      ap (take (size - 8)) (drop-append 8 buf more long)
      ∙ take-append (size - 8) (drop 8 buf) more (omega (arith, length-drop 8 buf)) in
    λ i. (
      record { obj = get o (obj_eq i); opcode = get o (word_eq i) % 65536; payload = payload_eq i },
      drop-append size buf more whole i,
    )

next_frame-append :
    (o : ByteOrder) (buf more rest : Bytes) (f : Frame)
    → next_frame o buf ≡ some (f, rest)
    → next_frame o (buf ++ more) ≡ some (f, rest ++ more)
next_frame-append o buf more rest f h =
    let (long, whole, same) = next_frame_inv o buf rest f h in
    let size : header_size o (buf ++ more) ≡ header_size o buf =
      ap (λ b. get o b / 65536) (field-append 4 4 buf more (omega arith)) in
    next_frame_found o (buf ++ more) (header_size o buf) (omega (arith, length-append buf more))
      size (omega (arith, length-append buf more))
    ∙ ap some (cut_frame-append o (header_size o buf) buf more long whole)
    ∙ ap (λ r. Option.map (λ p. (p.0, p.1 ++ more)) r) same

-- `next_frame` takes the first message off a stream.
next_frame-frame_bytes :
    (o : ByteOrder) (f : Frame) (rest : Bytes)
    → FitsHeader f
    → next_frame o (frame_bytes o f ++ rest) ≡ some (f, rest)
unfolding frame_bytes
next_frame-frame_bytes o f rest fits =
    let size : ℕ = 8 + length f.payload in
    let whole : Bytes = frame_bytes o f ++ rest in
    let bound : second f < 256 ^ 4 = omega (arith, fits.size_fits, fits.opcode_fits) in
    let at0 : drop 0 whole ≡ put o 4 f.obj ++ (put o 4 (second f) ++ (f.payload ++ rest)) =
      append_assoc (put o 4 f.obj) (put o 4 (second f) ++ f.payload) rest
      ∙ ap (λ b. put o 4 f.obj ++ b) (append_assoc (put o 4 (second f)) f.payload rest) in
    let at4 = drop-put o 4 f.obj whole _ 0 at0 in
    let at8 = drop-put o 4 (second f) whole _ 4 at4 in
    let long : length whole ≡ size + length rest =
      length-append (frame_bytes o f) rest ∙ ap (λ n. n + length rest) (length-frame_bytes o f) in
    let obj_eq = take-put o 4 f.obj whole _ 0 fits.obj_fits at0 in
    let word_eq : word_at o 4 whole ≡ second f = take-put o 4 (second f) whole _ 4 bound at4 in
    let size_eq : header_size o whole ≡ size =
      ap (λ w. w / 65536) word_eq ∙ omega (arith, fits.opcode_fits) in
    let opcode_eq : word_at o 4 whole % 65536 ≡ f.opcode =
      ap (λ w. w % 65536) word_eq ∙ omega (arith, fits.opcode_fits) in
    let payload_eq : take (size - 8) (drop 8 whole) ≡ f.payload =
      ap (take (size - 8)) at8 ∙ take-append_exact (size - 8) f.payload rest (omega arith) in
    let rest_eq : drop size whole ≡ rest =
      drop-add 8 (length f.payload) whole
      ∙ ap (drop (length f.payload)) at8
      ∙ drop-append_exact (length f.payload) f.payload rest refl in
    next_frame_found o whole size (omega (arith, long)) size_eq (omega (arith, long)) ∙ λ i.
    some (record { obj = obj_eq i; opcode = opcode_eq i; payload = payload_eq i }, rest_eq i)

next_frame-nil : (o : ByteOrder) → next_frame o [] ≡ none
unfolding next_frame
next_frame-nil o = refl

pub next_frame-Reads : (o : ByteOrder) → Reads (next_frame o) (frame_bytes o) FitsHeader
next_frame-Reads o = record {
  first = next_frame-frame_bytes o;
  more = λ bs later rest f. next_frame-append o bs later rest f;
  empty = next_frame-nil o;
}
