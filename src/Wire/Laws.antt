-- ===== src/Wire/Laws.antt =====
-- Reading back what `put` wrote.
use mathlib.Core.List.{reverse, reverse-reverse, reverse-append}
use py_wayland_auto.Base.{
  ℕ, zero, suc, ◌+◌, ◌-◌, ◌*◌, ◌/◌, ◌^◌, ◌<◌, ◌≡◌, refl, sym, ap, subst, ◌∙◌, List, [], ◌∷◌, ◌++◌,
  arith, length, drop, take, take-append, drop-append, length-drop, ◌≤◌, Bytes, length-append,
  take-append_exact, drop-past,
}
use py_wayland_auto.Base.Int.{ℤ, pos, negsuc}
use py_wayland_auto.Outcome.{ok}
use py_wayland_auto.Wire.{
  ByteOrder, little, big, low_bytes, low_value, put, get, pack_unsigned, pack_signed, signed,
  unpack_at,
}
use native.Mathlib.Nat.{pow-suc}

length-low_bytes : (k n : ℕ) → length (low_bytes k n) ≡ k
length-low_bytes zero n = refl
length-low_bytes (suc k) n = ap suc (length-low_bytes k (n / 256))

low_value-low_bytes : (k n : ℕ) → n < 256 ^ k → low_value (low_bytes k n) ≡ n
low_value-low_bytes zero n h = omega arith
low_value-low_bytes (suc k) n h =
    let bound : n < 256 ^ k * 256 = rw pow-suc at h in
    omega (arith, low_value-low_bytes k (n / 256) (omega arith))

length-reverse {ℓ} : {A : Type ℓ} (xs : List A) → length (reverse xs) ≡ length xs
length-reverse [] = refl
length-reverse (x ∷ xs) =
    ap length (reverse-append (x ∷ []) xs)
    ∙ length-append (reverse xs) (x ∷ [])
    ∙ omega (arith, length-reverse xs)

pub length-put : (o : ByteOrder) (k n : ℕ) → length (put o k n) ≡ k
unfolding put
length-put little k n = length-low_bytes k n
length-put big k n = length-reverse (low_bytes k n) ∙ length-low_bytes k n

pub get-put : (o : ByteOrder) (k n : ℕ) → n < 256 ^ k → get o (put o k n) ≡ n
unfolding put get
get-put little k n h = low_value-low_bytes k n h
get-put big k n h = rw (reverse-reverse (low_bytes k n)) (low_value-low_bytes k n h)

-- Where the bytes of an integer begin, `unpack_at` reads it.
pub unpack_at-put :
    (o : ByteOrder) (k n : ℕ) (whole rest : Bytes) (p : ℕ)
    → n < 256 ^ k
    → drop p whole ≡ put o k n ++ rest
    → unpack_at o k whole p ≡ ok n
unfolding unpack_at
unpack_at-put o k n whole rest p h e =
    rw (e, take-append_exact k (put o k n) rest (sym (length-put o k n)), length-put o k n)
      (ground (arith, get-put o k n h))

pub pack_unsigned-ok :
    (o : ByteOrder) (k : ℕ) (v : ℤ) {bs : Bytes}
    → pack_unsigned o k v ≡ ok bs
    → (n : ℕ) × (v ≡ pos n) × (n < 256 ^ k) × (bs ≡ put o k n)
unfolding pack_unsigned
pack_unsigned-ok o k (pos n) h = (n, refl, ground arith, ground arith)
pack_unsigned-ok o k (negsuc n) h = cc

pub pack_signed-ok :
    (o : ByteOrder) (v : ℤ) {bs : Bytes}
    → pack_signed o v ≡ ok bs
    → (n : ℕ) × (signed n ≡ v) × (n < 2 ^ 32) × (bs ≡ put o 4 n)
unfolding pack_signed
pack_signed-ok o (pos n) h = (n, ground arith, ground arith, ground arith)
pack_signed-ok o (negsuc n) h = (2 ^ 32 - n - 1, ground arith, ground arith, ground arith)

-- The rest stands behind the bytes of an integer.
pub drop-put :
    (o : ByteOrder) (k n : ℕ) (whole rest : Bytes) (p : ℕ)
    → drop p whole ≡ put o k n ++ rest
    → drop (p + k) whole ≡ rest
drop-put o k n whole rest p h =
    subst (λ m. drop (p + m) whole ≡ rest) (length-put o k n) (drop-past p whole (put o k n) rest h)

module _ (o : ByteOrder) (whole rest : Bytes) (p : ℕ) where
  -- An unsigned integer is read back.
  pub read_unsigned :
      (k : ℕ) (v : ℤ) {bs : Bytes}
      → pack_unsigned o k v ≡ ok bs
      → drop p whole ≡ bs ++ rest
      → (n : ℕ) × (v ≡ pos n) × (unpack_at o k whole p ≡ ok n) × (length bs ≡ k)
  read_unsigned k v {bs} packed at =
      let (n, same, bound, shape) = pack_unsigned-ok o k v packed in
      (
        n,
        same,
        unpack_at-put o k n whole rest p bound (at ∙ ap (λ b. b ++ rest) shape),
        ap length shape ∙ length-put o k n,
      )

  pub read_signed :
      (v : ℤ) {bs : Bytes}
      → pack_signed o v ≡ ok bs
      → drop p whole ≡ bs ++ rest
      → (n : ℕ) × (signed n ≡ v) × (unpack_at o 4 whole p ≡ ok n) × (length bs ≡ 4)
  read_signed v {bs} packed at =
      let (n, same, bound, shape) = pack_signed-ok o v packed in
      (
        n,
        same,
        unpack_at-put o 4 n whole rest p bound (at ∙ ap (λ b. b ++ rest) shape),
        ap length shape ∙ length-put o 4 n,
      )

-- The integer at an offset.
pub take-put :
    (o : ByteOrder) (k n : ℕ) (whole rest : Bytes) (p : ℕ)
    → n < 256 ^ k
    → drop p whole ≡ put o k n ++ rest
    → get o (take k (drop p whole)) ≡ n
take-put o k n whole rest p bound at =
    ap (λ b. get o (take k b)) at
    ∙ ap (get o) (take-append_exact k (put o k n) rest (sym (length-put o k n)))
    ∙ get-put o k n bound

-- A field of a header does not change with what follows.
pub field-append :
    (p k : ℕ) (buf more : Bytes)
    → p + k ≤ length buf
    → take k (drop p (buf ++ more)) ≡ take k (drop p buf)
field-append p k buf more h =
    ap (take k) (drop-append p buf more (omega arith))
    ∙ take-append k (drop p buf) more (omega (arith, length-drop p buf))
