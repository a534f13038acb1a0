-- ===== src/Eis/Messages/Texts.antt =====
-- Texts in messages: the layout of a packed text, and that it is read back.
use py_wayland_auto.Base.{
  ℕ, ◌+◌, ◌-◌, ◌^◌, ◌≤◌, ◌<◌, ◌≡◌, ◌≢◌, refl, sym, ap, ap₂, ◌∙◌, inl, inr, [], ◌∷◌, ◌++◌,
  append_assoc, append-nil, arith, length, take, drop, Bytes, Text, length-append,
  take-append_exact, length-replicate, replicate,
}
use py_wayland_auto.Base.Int.{pos}
use py_wayland_auto.Outcome.{ok, Result-cases}
use py_wayland_auto.Utf8.{encode, decode, decode_from, encode_char}
use py_wayland_auto.Utf8.RoundTrip.{decode-encode}
use py_wayland_auto.Wire.{ByteOrder, put, pack_unsigned}
use py_wayland_auto.Wire.Laws.{length-put, unpack_at-put, pack_unsigned-ok, drop-put}
use py_wayland_auto.Eis.Messages.{round4, pack_text, keep_nul, rstrip_nul, unpack_text}

rstrip_nul-append_nul : (bs : Bytes) → rstrip_nul (bs ++ 0 ∷ []) ≡ rstrip_nul bs
rstrip_nul-append_nul [] = refl
rstrip_nul-append_nul (b ∷ bs) = ap (keep_nul b) (rstrip_nul-append_nul bs)

-- A text that ends in no NUL keeps its tail so.
keep_nul-cons : (c : ℕ) (cs ds : Bytes) → keep_nul c ds ≡ c ∷ cs → ds ≡ cs
keep_nul-cons c cs [] h = ground arith
keep_nul-cons c cs (d ∷ ds) h = ground arith

keep_nul-ne_nil : (x : ℕ) (ys : Bytes) → ys ≢ [] → keep_nul x ys ≡ x ∷ ys
keep_nul-ne_nil x [] h = absurd (h refl)
keep_nul-ne_nil x (y ∷ ys) h = refl

rstrip_nul-append :
    (xs ys : Bytes) → ys ≢ [] → rstrip_nul ys ≡ ys → rstrip_nul (xs ++ ys) ≡ xs ++ ys
rstrip_nul-append [] ys ne h = h
rstrip_nul-append (x ∷ []) ys ne h = rw h (keep_nul-ne_nil x ys ne)
rstrip_nul-append (x ∷ w ∷ xs) ys ne h = rw (rstrip_nul-append (w ∷ xs) ys ne h)

encode_char-rstrip : (c : ℕ) → c ≢ 0 → rstrip_nul (encode_char c) ≡ encode_char c
unfolding encode_char
encode_char-rstrip c h = ground arith

encode_char-ne_nil : (c : ℕ) (bs : Bytes) → encode_char c ++ bs ≢ []
unfolding encode_char
encode_char-ne_nil c bs = ground arith

-- What `encode` of a text that is not empty gives.
encode-cons :
    (c : ℕ) (cs : Text) {bs : Bytes}
    → encode (c ∷ cs) ≡ ok bs
    → (tail : Bytes) × (encode cs ≡ ok tail) × (bs ≡ encode_char c ++ tail)
unfolding encode
encode-cons c cs h = elim (Result-cases (encode cs)) [
  | inl (tail, coded) ↦ (tail, coded, ground arith)
  | inr (x, failed) ↦ absurd (ground arith)
]

-- The bytes of a text that ends in no NUL end in no zero byte.
encode-rstrip : (t : Text) {bs : Bytes} → rstrip_nul t ≡ t → encode t ≡ ok bs → rstrip_nul bs ≡ bs
unfolding encode
encode-rstrip [] {bs} h e = let e' : [] ≡ bs = cc in rw (← e')
encode-rstrip (c ∷ []) {bs} h e =
    let (tail, coded, split) = encode-cons c [] e in
    let nil : tail ≡ [] = ground arith in
    let whole : bs ≡ encode_char c =
      split ∙ ap (λ r. encode_char c ++ r) nil ∙ append-nil (encode_char c) in
    rw whole (encode_char-rstrip c (ground arith))
encode-rstrip (c ∷ d ∷ cs) {bs} h e =
    let (tail, coded, split) = encode-cons c (d ∷ cs) e in
    let (more, _, split') = encode-cons d cs coded in
    let ne : tail ≢ [] = rw split' (encode_char-ne_nil d more) in
    let kept : rstrip_nul tail ≡ tail =
      encode-rstrip (d ∷ cs) (keep_nul-cons c (d ∷ cs) (rstrip_nul (d ∷ cs)) h) coded in
    rw split (rstrip_nul-append (encode_char c) tail ne kept)

-- The layout of a packed text.
pack_text-ok :
    (o : ByteOrder) (t : Text) {bs : Bytes}
    → pack_text o t ≡ ok bs
    → (coded : Bytes) × (encode t ≡ ok coded)
      × (length (coded ++ 0 ∷ []) < 256 ^ 4)
      × (bs
          ≡ put o 4 (length (coded ++ 0 ∷ []))
            ++ ((coded ++ 0 ∷ [])
                ++ replicate (round4 (length (coded ++ 0 ∷ [])) - length (coded ++ 0 ∷ [])) 0))
unfolding pack_text
pack_text-ok o t packed = elim (Result-cases (encode t)) [
  | inr (x, failed) ↦ absurd (ground arith)
  | inl (coded, e) ↦ elim (Result-cases (pack_unsigned o 4 (pos (length (coded ++ 0 ∷ []))))) [
    | inr (x, failed) ↦ absurd (ground arith)
    | inl (size, sized) ↦
        (let (n, same, bound, shape) = pack_unsigned-ok o 4 _ sized in
          let n_eq : length (coded ++ 0 ∷ []) ≡ n = cc in
          let shape' : size ≡ put o 4 (length (coded ++ 0 ∷ [])) = rw n_eq shape in
          (coded, e, omega arith, rw (← shape') (ground arith)))
  ]
]

round4-bounds : (n : ℕ) → n ≤ round4 n
unfolding round4
round4-bounds n = omega arith

read_text :
    (o : ByteOrder) (t : Text) (coded pad whole rest : Bytes) (n p : ℕ)
    → rstrip_nul coded ≡ coded
    → decode coded ≡ t
    → n ≡ length (coded ++ 0 ∷ [])
    → n < 256 ^ 4
    → drop p whole ≡ put o 4 n ++ ((coded ++ 0 ∷ []) ++ (pad ++ rest))
    → unpack_text o whole p ≡ ok (t, p + 4 + round4 n)
unfolding unpack_text
read_text o t coded pad whole rest n p kept read sized bound behind =
    let raw : Bytes = coded ++ 0 ∷ [] in
    let body : drop (p + 4) whole ≡ raw ++ (pad ++ rest) =
      drop-put o 4 n whole (raw ++ (pad ++ rest)) p behind in
    let cut : take n (raw ++ (pad ++ rest)) ≡ raw = take-append_exact n raw (pad ++ rest) sized in
    let value : decode (rstrip_nul (take n (drop (p + 4) whole))) ≡ t =
      ap (λ b. decode (rstrip_nul (take n b))) body
      ∙ ap (λ b. decode (rstrip_nul b)) cut
      ∙ ap decode (rstrip_nul-append_nul coded ∙ kept)
      ∙ read in
    rw (unpack_at-put o 4 n whole (raw ++ (pad ++ rest)) p bound behind) (rw value)

-- A packed text is read back, behind whatever stands before it and before whatever follows.
pub unpack-pack_text :
    (o : ByteOrder) (t : Text) (whole rest : Bytes) (p : ℕ) {bs : Bytes}
    → rstrip_nul t ≡ t
    → pack_text o t ≡ ok bs
    → drop p whole ≡ bs ++ rest
    → unpack_text o whole p ≡ ok (t, p + length bs)
unfolding decode_from
unpack-pack_text o t whole rest p {bs} plain packed at =
    let (coded, e, bound, shape) = pack_text-ok o t packed in
    let raw : Bytes = coded ++ 0 ∷ [] in
    let n : ℕ = length raw in
    let pad : Bytes = replicate (round4 n - n) 0 in
    let behind : drop p whole ≡ put o 4 n ++ (raw ++ (pad ++ rest)) =
      at
      ∙ ap (λ b. b ++ rest) shape
      ∙ append_assoc (put o 4 n) (raw ++ pad) rest
      ∙ ap (λ b. put o 4 n ++ b) (append_assoc raw pad rest) in
    let read : decode coded ≡ t =
      ap decode (sym (append-nil coded)) ∙ decode-encode t [] e ∙ append-nil t in
    let size : length bs ≡ 4 + (n + (round4 n - n)) =
      ap length shape
      ∙ length-append (put o 4 n) (raw ++ pad)
      ∙ ap₂ (λ a b. a + b) (length-put o 4 n)
          (length-append raw pad ∙ ap (λ b. n + b) (length-replicate (round4 n - n) 0)) in
    let total : p + 4 + round4 n ≡ p + length bs = omega (arith, size, round4-bounds n) in
    read_text o t coded pad whole rest n p (encode-rstrip t plain e) read refl bound behind
    ∙ ap (λ q. ok (t, q)) total
