-- ===== src/Wayland/Messages/RoundTrip.antt =====
-- `unpack_args` reads back what `pack_message` wrote, with the descriptors beside it.
use py_wayland_auto.Base.{
  ℕ, ◌+◌, ◌-◌, ◌≡◌, sym, ap, ap₂, ◌∙◌, inl, inr, List, [], ◌∷◌, ◌++◌, append_assoc, arith, length,
  drop, Bytes, Text, length-append, drop-past, replicate,
}
use py_wayland_auto.Base.Int.{ℤ, pos, negsuc}
use py_wayland_auto.Outcome.{Result, ok, raised, Result-cases}
use py_wayland_auto.Outcome
use py_wayland_auto.Stateful.{bind_with, pure}
use py_wayland_auto.Utf8.{encode}
use py_wayland_auto.Wire.{ByteOrder, pack_unsigned, pack_signed, signed}
use py_wayland_auto.Wire.Laws.{read_unsigned, read_signed}
use py_wayland_auto.Eis.Messages
use py_wayland_auto.Eis.Messages.{Arg, num, real, text, round4, rstrip_nul, unpack_text}
use py_wayland_auto.Eis.Messages.Texts.{unpack-pack_text}
use py_wayland_auto.Wayland.Messages.{
  Kind, uint32, int32, fixed, object_id, new_id, string, handle, padding, pack_text, pack_arg,
  pack_args, unpack_word, unpack_arg, unpack_args, descriptor, descriptors,
}

-- What comes back as it was sent: a text that ends in no NUL, a descriptor that is sent.
abbrev pub Fits : Kind → Arg → Type 0
Fits handle (num (pos n)) = Unit
Fits handle a = ⊥
Fits string (text t) = rstrip_nul t ≡ t
Fits k a = Unit

abbrev pub FitsAll : List Kind → List Arg → Type 0
FitsAll [] [] = Unit
FitsAll [] (a ∷ args) = ⊥
FitsAll (k ∷ sig) [] = ⊥
FitsAll (k ∷ sig) (a ∷ args) = Fits k a × FitsAll sig args

padding_lem : (n : ℕ) → padding n ≡ round4 n - n
unfolding round4
padding_lem n = omega arith

-- Both codecs lay a text out in one way.
pack_text_same : (o : ByteOrder) (t : Text) → pack_text o t ≡ Messages.pack_text o t
unfolding pack_text Messages.pack_text
pack_text_same o t = elim (Result-cases (encode t)) [
  | inr (x, failed) ↦ rw failed
  | inl (coded, e) ↦ rw e (
      ap
        (λ pad.
          Outcome.◌>>=◌ (pack_unsigned o 4 (pos (length (coded ++ 0 ∷ []))))
            (λ size. ok (size ++ ((coded ++ 0 ∷ []) ++ replicate pad 0))))
        (padding_lem (length (coded ++ 0 ∷ []))))
]

module _ (o : ByteOrder) (whole rest : Bytes) (p : ℕ) where
  read_word :
      (v : ℤ) (fds : List ℤ) {bs : Bytes}
      → pack_unsigned o 4 v ≡ ok bs
      → drop p whole ≡ bs ++ rest
      → unpack_word o (λ w. num (pos w)) whole p fds ≡ (ok (num v, p + length bs), fds)
  read_word v fds packed at =
      let (n, same, read, size) = read_unsigned o whole rest p 4 v packed at in
      ap (λ r. bind_with (r, fds) (λ w. pure (num (pos w), p + 4))) read
      ∙ ap₂ (λ z m. (ok (num z, p + m), fds)) (sym same) (sym size)

  read_int :
      (v : ℤ) (fds : List ℤ) {bs : Bytes}
      → pack_signed o v ≡ ok bs
      → drop p whole ≡ bs ++ rest
      → unpack_word o (λ w. num (signed w)) whole p fds ≡ (ok (num v, p + length bs), fds)
  read_int v fds packed at =
      let (n, same, read, size) = read_signed o whole rest p v packed at in
      ap (λ r. bind_with (r, fds) (λ w. pure (num (signed w), p + 4))) read
      ∙ ap₂ (λ z m. (ok (num z, p + m), fds)) same (sym size)

  -- One argument is read back.
  unpack-pack_arg :
      (k : Kind) (a : Arg) (more : List ℤ) {bs : Bytes}
      → Fits k a
      → pack_arg o k a ≡ ok bs
      → drop p whole ≡ bs ++ rest
      → unpack_arg o k whole p (descriptor k a ++ more) ≡ (ok (a, p + length bs), more)
  unfolding pack_arg unpack_arg
  unpack-pack_arg uint32 (num v) more fits packed at = read_word v more packed at
  unpack-pack_arg int32 (num v) more fits packed at = read_int v more packed at
  unpack-pack_arg fixed (num v) more fits packed at = read_int v more packed at
  unpack-pack_arg object_id (num v) more fits packed at = read_word v more packed at
  unpack-pack_arg new_id (num v) more fits packed at = read_word v more packed at
  unpack-pack_arg string (text t) more fits packed at =
      ap (λ r. bind_with (r, more) (λ q. pure (text q.0, q.1)))
        (unpack-pack_text o t whole rest p fits (sym (pack_text_same o t) ∙ packed) at)
  unpack-pack_arg handle (num (pos n)) more {bs} fits packed at =
      let nil : bs ≡ [] = ground arith in
      let e : p ≡ p + length bs = rw nil (omega arith) in ap (λ q. (ok (num (pos n), q), more)) e
  unpack-pack_arg handle (num (negsuc n)) more fits packed at = absurd fits
  unpack-pack_arg handle (real x) more fits packed at = absurd fits
  unpack-pack_arg handle (text t) more fits packed at = absurd fits
  unpack-pack_arg k a more fits packed at = cc

-- The arguments of a message are read back as they were sent, from the offset where they stand and
-- before whatever follows, if its texts end in no NUL and its descriptors are numbers from 0 on:
-- integers, fixed-point numbers, texts, and descriptors, which are taken off those received in the
-- order in which `send` has sent them. The new offset is behind the arguments.
pub unpack-pack_args :
    (o : ByteOrder) (sig : List Kind) (args : List Arg) (whole rest : Bytes) (p : ℕ) (more : List ℤ)
    {bs : Bytes}
    → FitsAll sig args
    → pack_args o sig args ≡ ok bs
    → drop p whole ≡ bs ++ rest
    → unpack_args o sig whole p (descriptors sig args ++ more) ≡ (ok (args, p + length bs), more)
unfolding pack_args unpack_args descriptors
unpack-pack_args o [] [] whole rest p more {bs} fits packed at =
    let nil : bs ≡ [] = ground arith in
    let e : p ≡ p + length bs = rw nil (omega arith) in ap (λ q. (ok ([], q), more)) e
unpack-pack_args o [] (a ∷ args) whole rest p more fits packed at = absurd fits
unpack-pack_args o (k ∷ sig) [] whole rest p more fits packed at = absurd fits
unpack-pack_args o (k ∷ sig) (a ∷ args) whole rest p more {bs} fits packed at =
    elim (Result-cases (pack_arg o k a)) [
      | inr (x, failed) ↦ absurd (ground arith)
      | inl (first, one) ↦ elim (Result-cases (pack_args o sig args)) [
        | inr (x, failed) ↦ absurd (ground arith)
        | inl (others, later) ↦
            (let shape : bs ≡ first ++ others = ground arith in
              let at' : drop p whole ≡ first ++ (others ++ rest) =
                at ∙ ap (λ b. b ++ rest) shape ∙ append_assoc first others rest in
              let fds = descriptors sig args ++ more in
              let order : (descriptor k a ++ descriptors sig args) ++ more ≡ descriptor k a ++ fds =
                append_assoc (descriptor k a) (descriptors sig args) more in
              let head = unpack-pack_arg o whole (others ++ rest) p k a fds fits.0 one at' in
              let tail =
                unpack-pack_args o sig args whole rest (p + length first) more fits.1 later
                  (drop-past p whole first (others ++ rest) at') in
              let size : p + length first + length others ≡ p + length bs =
                omega (arith, ap length shape, length-append first others) in
              rw (order, head, tail) (ap (λ q. (ok (a ∷ args, q), more)) size))
      ]
    ]
