-- ===== src/Eis/Messages/RoundTrip.antt =====
-- `unpack_args` and `unpack_header` read back what `pack_message` wrote.
use py_wayland_auto.Base.{
  ℕ, ◌+◌, ◌^◌, ◌<◌, ◌≡◌, sym, ap, ap₂, ◌∙◌, inl, inr, List, [], ◌∷◌, ◌++◌, append_assoc, arith,
  length, drop, Bytes, length-append, some, drop-past,
}
use py_wayland_auto.Base.Int.{ℤ, pos}
use py_wayland_auto.Outcome.{Result, ok, ◌>>=◌, Result-cases}
use py_wayland_auto.Wire.{
  ByteOrder, put, pack_unsigned, pack_signed, signed, unpack_at, Float, Floats,
}
use py_wayland_auto.Wire.Laws.{read_unsigned, read_signed, length-put, unpack_at-put}
use py_wayland_auto.Eis.Messages.{
  Kind, uint32, int32, single, int64, object_id, uint64, new_id, string, handle, Arg, num, real,
  text, pack_single, pack_arg, pack_args, rstrip_nul, unpack_arg, unpack_args,
}
use py_wayland_auto.Eis.Messages.Texts.{unpack-pack_text}

-- What comes back as it was sent: a text that ends in no NUL, a float that is a single.
abbrev pub IsSingle : Floats → Float → Type 0
IsSingle fl x = (w : ℕ) × (fl.to_single x ≡ some w) × (w < 2 ^ 32) × (fl.of_single w ≡ x)

abbrev pub Fits : Floats → Kind → Arg → Type 0
Fits fl handle a = ⊥
Fits fl string (text t) = rstrip_nul t ≡ t
Fits fl single (real x) = IsSingle fl x
Fits fl single (num v) = ⊥
Fits fl k a = Unit

abbrev pub FitsAll : Floats → List Kind → List Arg → Type 0
FitsAll fl [] [] = Unit
FitsAll fl [] (a ∷ args) = ⊥
FitsAll fl (k ∷ sig) [] = ⊥
FitsAll fl (k ∷ sig) (a ∷ args) = Fits fl k a × FitsAll fl sig args

-- What one round of `unpack_args` returns.
abbrev Read : Type 0
Read = Arg × ℕ × List ℤ

abbrev got : (ℕ → Arg) → ℕ → List ℤ → ℕ → Result Read
got value q fds w = ok (value w, q, fds)

abbrev result : Arg → ℕ → List ℤ → Result Read
result a q fds = ok (a, q, fds)

module _ (o : ByteOrder) (fl : Floats) (whole rest : Bytes) (p : ℕ) where
  read_num :
      (k : ℕ) (v : ℤ) (fds : List ℤ) {bs : Bytes}
      → pack_unsigned o k v ≡ ok bs
      → drop p whole ≡ bs ++ rest
      → (unpack_at o k whole p >>= got (λ w. num (pos w)) (p + k) fds)
        ≡ result (num v) (p + length bs) fds
  read_num k v fds packed at =
      let (n, same, read, size) = read_unsigned o whole rest p k v packed at in
      ap (λ r. r >>= got (λ w. num (pos w)) (p + k) fds) read
      ∙ ap₂ (λ z m. result (num z) (p + m) fds) (sym same) (sym size)

  read_int32 :
      (v : ℤ) (fds : List ℤ) {bs : Bytes}
      → pack_signed o v ≡ ok bs
      → drop p whole ≡ bs ++ rest
      → (unpack_at o 4 whole p >>= got (λ w. num (signed w)) (p + 4) fds)
        ≡ result (num v) (p + length bs) fds
  read_int32 v fds packed at =
      let (n, same, read, size) = read_signed o whole rest p v packed at in
      ap (λ r. r >>= got (λ w. num (signed w)) (p + 4) fds) read
      ∙ ap₂ (λ z m. result (num z) (p + m) fds) same (sym size)

  read_single :
      (x : Float) (fds : List ℤ) {bs : Bytes}
      → IsSingle fl x
      → pack_single o (fl.to_single x) ≡ ok bs
      → drop p whole ≡ bs ++ rest
      → (unpack_at o 4 whole p >>= got (λ w. real (fl.of_single w)) (p + 4) fds)
        ≡ result (real x) (p + length bs) fds
  unfolding pack_single
  read_single x fds {bs} (w, converted, bound, back) packed at =
      let packed' : pack_single o (some w) ≡ ok bs = rw converted at packed in
      let shape : bs ≡ put o 4 w = ground arith in
      ap (λ r. r >>= got (λ w. real (fl.of_single w)) (p + 4) fds)
        (unpack_at-put o 4 w whole rest p bound (at ∙ ap (λ b. b ++ rest) shape))
      ∙ ap₂ (λ z m. result (real z) (p + m) fds) back (sym (ap length shape ∙ length-put o 4 w))

  -- One argument is read back.
  unpack-pack_arg :
      (k : Kind) (a : Arg) (fds : List ℤ) {bs : Bytes}
      → Fits fl k a
      → pack_arg o fl k a ≡ ok bs
      → drop p whole ≡ bs ++ rest
      → unpack_arg o fl k whole p fds ≡ ok (a, p + length bs, fds)
  unfolding pack_arg unpack_arg
  unpack-pack_arg uint32 (num v) fds fits packed at = read_num 4 v fds packed at
  unpack-pack_arg int32 (num v) fds fits packed at = read_int32 v fds packed at
  unpack-pack_arg single (real x) fds fits packed at = read_single x fds fits packed at
  unpack-pack_arg single (num v) fds fits packed at = absurd fits
  unpack-pack_arg int64 (num v) fds fits packed at = read_num 8 v fds packed at
  unpack-pack_arg object_id (num v) fds fits packed at = read_num 8 v fds packed at
  unpack-pack_arg uint64 (num v) fds fits packed at = read_num 8 v fds packed at
  unpack-pack_arg new_id (num v) fds fits packed at = read_num 8 v fds packed at
  unpack-pack_arg string (text t) fds fits packed at =
      ap (λ r. r >>= λ q. ok (text q.0, q.1, fds))
        (unpack-pack_text o t whole rest p fits packed at)
  unpack-pack_arg handle a fds fits packed at = absurd fits
  unpack-pack_arg k a fds fits packed at = cc

-- The arguments of a message without descriptors are read back as they were sent, from the offset
-- where they stand and before whatever follows: integers of every width, singles, and texts that
-- end in no NUL. The new offset is behind them, and no descriptor is taken.
pub unpack-pack_args :
    (o : ByteOrder) (fl : Floats) (sig : List Kind) (args : List Arg) (whole rest : Bytes) (p : ℕ)
    (fds : List ℤ) {bs : Bytes}
    → FitsAll fl sig args
    → pack_args o fl sig args ≡ ok bs
    → drop p whole ≡ bs ++ rest
    → unpack_args o fl sig whole p fds ≡ ok (args, p + length bs, fds)
unfolding pack_args unpack_args
unpack-pack_args o fl [] [] whole rest p fds {bs} fits packed at =
    let nil : bs ≡ [] = ground arith in
    let e : p ≡ p + length bs = rw nil (omega arith) in ap (λ q. ok ([], q, fds)) e
unpack-pack_args o fl [] (a ∷ args) whole rest p fds fits packed at = absurd fits
unpack-pack_args o fl (k ∷ sig) [] whole rest p fds fits packed at = absurd fits
unpack-pack_args o fl (k ∷ sig) (a ∷ args) whole rest p fds {bs} fits packed at =
    elim (Result-cases (pack_arg o fl k a)) [
      | inr (x, failed) ↦ absurd (ground arith)
      | inl (first, one) ↦ elim (Result-cases (pack_args o fl sig args)) [
        | inr (x, failed) ↦ absurd (ground arith)
        | inl (others, more) ↦
            (let shape : bs ≡ first ++ others = ground arith in
              let at' : drop p whole ≡ first ++ (others ++ rest) =
                at ∙ ap (λ b. b ++ rest) shape ∙ append_assoc first others rest in
              let head = unpack-pack_arg o fl whole (others ++ rest) p k a fds fits.0 one at' in
              let tail =
                unpack-pack_args o fl sig args whole rest (p + length first) fds fits.1 more
                  (drop-past p whole first (others ++ rest) at') in
              let size : p + length first + length others ≡ p + length bs =
                omega (arith, ap length shape, length-append first others) in
              rw (head, tail) (ap (λ q. ok (a ∷ args, q, fds)) size))
      ]
    ]
