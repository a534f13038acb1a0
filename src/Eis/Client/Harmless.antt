-- ===== src/Eis/Client/Harmless.antt =====
-- Which exceptions the input methods raise once the handshake has returned.
use py_wayland_auto.Base.{
  ℕ, ◌+◌, Bool, true, false, List, [], ◌∷◌, Option, none, some, if◌then◌else◌, Bytes, ltb, ◌^◌, ◌-◌,
  length,
}
use py_wayland_auto.Base.Int.{ℤ, pos, negsuc}
use py_wayland_auto.Outcome.{Exn, Result, ok, raised, eis_error, struct_error, overflow_error}
use py_wayland_auto.Outcome
use py_wayland_auto.Wire.{ByteOrder, Floats, pack_unsigned, pack_signed, put}
use py_wayland_auto.Eis.Messages.{
  Kind, uint32, int32, single, uint64, Arg, num, real, pack_single, pack_arg, pack_args,
  pack_message,
}
use py_wayland_auto.Eis.Tables.{Request}

-- The connection fails, or a number or a float does not fit its field.
abbrev pub IsHarmless : Exn → Type 0
IsHarmless eis_error = Unit
IsHarmless struct_error = Unit
IsHarmless overflow_error = Unit
IsHarmless e = ⊥

abbrev pub Harmless : {A : Type 0} → Result A → Type 0
Harmless (ok a) = Unit
Harmless (raised e) = IsHarmless e

bind-Harmless :
    {A B : Type 0} (r : Result A) (k : A → Result B)
    → Harmless r
    → ((a : A) → Harmless (k a))
    → Harmless (Outcome.◌>>=◌ r k)
bind-Harmless (ok a) k h later = later a
bind-Harmless (raised e) k h later = h

-- The arguments that the input methods and their frames send.
abbrev pub SendableArg : Kind → Arg → Type 0
SendableArg uint32 (num v) = Unit
SendableArg int32 (num v) = Unit
SendableArg uint64 (num v) = Unit
SendableArg single (real x) = Unit
SendableArg k a = ⊥

abbrev pub Sendable : List Kind → List Arg → Type 0
Sendable [] [] = Unit
Sendable [] (a ∷ args) = ⊥
Sendable (k ∷ sig) [] = ⊥
Sendable (k ∷ sig) (a ∷ args) = SendableArg k a × Sendable sig args

module _ (o : ByteOrder) (fl : Floats) where
  unsigned-Harmless : (size : ℕ) (v : ℤ) → Harmless (pack_unsigned o size v)
  unfolding pack_unsigned
  unsigned-Harmless size (pos n) = fits (ltb n (256 ^ size))
    where
      fits : (b : Bool) → Harmless (if b then ok (put o size n) else raised struct_error)
      fits true = tt
      fits false = tt
  unsigned-Harmless size (negsuc n) = tt

  signed-Harmless : (v : ℤ) → Harmless (pack_signed o v)
  unfolding pack_signed
  signed-Harmless (pos n) = fits (ltb n (2 ^ 31)) (put o 4 n)
    where
      fits : (b : Bool) (raw : Bytes) → Harmless (if b then ok raw else raised struct_error)
      fits true raw = tt
      fits false raw = tt
  signed-Harmless (negsuc n) = fits (ltb n (2 ^ 31)) (put o 4 (2 ^ 32 - n - 1))
    where
      fits : (b : Bool) (raw : Bytes) → Harmless (if b then ok raw else raised struct_error)
      fits true raw = tt
      fits false raw = tt

  single-Harmless : (w : Option ℕ) → Harmless (pack_single o w)
  unfolding pack_single
  single-Harmless none = tt
  single-Harmless (some w) = tt

  arg-Harmless : (k : Kind) (a : Arg) → SendableArg k a → Harmless (pack_arg o fl k a)
  unfolding pack_arg
  arg-Harmless uint32 (num v) h = unsigned-Harmless 4 v
  arg-Harmless int32 (num v) h = signed-Harmless v
  arg-Harmless uint64 (num v) h = unsigned-Harmless 8 v
  arg-Harmless single (real x) h = single-Harmless (fl.to_single x)
  arg-Harmless uint32 (real x) h = absurd h
  arg-Harmless k a h = absurd h

  args-Harmless :
      (sig : List Kind) (args : List Arg) → Sendable sig args → Harmless (pack_args o fl sig args)
  unfolding pack_args
  args-Harmless [] [] h = tt
  args-Harmless [] (a ∷ args) h = absurd h
  args-Harmless (k ∷ sig) [] h = absurd h
  args-Harmless (k ∷ sig) (a ∷ args) h =
      bind-Harmless _ _ (arg-Harmless k a h.0)
        (λ raw. bind-Harmless _ _ (args-Harmless sig args h.1) (λ rest. tt))

  pub message-Harmless :
      (obj : ℕ) (req : Request) (args : List Arg)
      → Sendable req.1 args
      → Harmless (pack_message o fl obj req.0 req.1 args)
  unfolding pack_message
  message-Harmless obj req args h = bind-Harmless _ _ (args-Harmless req.1 args h) λ payload.
      bind-Harmless _ _ (unsigned-Harmless 8 (pos obj)) λ a.
        bind-Harmless _ _ (unsigned-Harmless 4 (pos (16 + length payload)))
          λ b. bind-Harmless _ _ (unsigned-Harmless 4 (pos req.0)) (λ d. tt)
