-- ===== src/Utf8/RoundTrip.antt =====
-- Decoding gives back what was encoded.
use py_wayland_auto.Base.{
  ℕ, ◌+◌, ◌*◌, ◌/◌, ◌%◌, ◌≤◌, ◌<◌, ◌≡◌, refl, ap, ◌∙◌, inl, inr, true, [], ◌∷◌, ◌++◌, append_assoc,
  ltb, arith, Text, Bytes, Bool-cases,
}
use py_wayland_auto.Outcome.{ok, Result-cases}
use py_wayland_auto.Utf8.{is_scalar, encode_char, encode, start, lead, step, decode_from, decode}

lead_one : (c : ℕ) → c < 0x80 → lead c ≡ (c ∷ [], start)
unfolding lead
lead_one c h = ground arith

char_one :
    (c : ℕ) (bs : Bytes)
    → c < 0x80
    → decode_from start (encode_char c ++ bs) ≡ c ∷ decode_from start bs
unfolding encode_char decode_from step
char_one c bs h = ground (arith, lead_one c h)

-- Splits of a number into groups of six bits.
two_groups : (c : ℕ) → c ≡ c / 64 * 64 + c % 64
two_groups c = omega arith

three_groups : (c : ℕ) → c ≡ (c / 4096 * 64 + c / 64 % 64) * 64 + c % 64
three_groups c = omega arith

four_groups : (c : ℕ) → c ≡ ((c / 262144 * 64 + c / 4096 % 64) * 64 + c / 64 % 64) * 64 + c % 64
four_groups c = omega arith

char_two :
    (c : ℕ) (bs : Bytes)
    → 0x80 ≤ c
    → c < 0x800
    → decode_from start (encode_char c ++ bs) ≡ c ∷ decode_from start bs
unfolding encode_char decode_from step lead
char_two c bs lo hi = ground arith

char_three :
    (c : ℕ) (bs : Bytes)
    → 0x800 ≤ c
    → c < 0x10000
    → is_scalar c ≡ true
    → decode_from start (encode_char c ++ bs) ≡ c ∷ decode_from start bs
unfolding encode_char decode_from step lead
char_three c bs lo hi s = ground arith

char_four :
    (c : ℕ) (bs : Bytes)
    → 0x10000 ≤ c
    → c ≤ 0x10FFFF
    → decode_from start (encode_char c ++ bs) ≡ c ∷ decode_from start bs
unfolding encode_char decode_from step lead
char_four c bs lo hi = ground arith

char-decode :
    (c : ℕ) (bs : Bytes)
    → is_scalar c ≡ true
    → decode_from start (encode_char c ++ bs) ≡ c ∷ decode_from start bs
char-decode c bs s = elim (Bool-cases (ltb c 0x80)) [
  | inl one ↦ char_one c bs (ground arith)
  | inr two_up ↦ elim (Bool-cases (ltb c 0x800)) [
    | inl two ↦ char_two c bs (ground arith) (ground arith)
    | inr three_up ↦ elim (Bool-cases (ltb c 0x10000)) [
      | inl three ↦ char_three c bs (ground arith) (ground arith) s
      | inr four_up ↦ char_four c bs (ground arith) (ground arith)
    ]
  ]
]

-- What was encoded is read back, whatever bytes follow.
pub decode-encode :
    (t : Text) {bs : Bytes} (rest : Bytes)
    → encode t ≡ ok bs
    → decode (bs ++ rest) ≡ t ++ decode rest
unfolding encode
decode-encode [] {bs} rest h = let e : [] ≡ bs = cc in rw (← e) refl
decode-encode (c ∷ cs) {bs} rest h = elim (Result-cases (encode cs)) [
  | inl (tail, coded) ↦ elim (Bool-cases (is_scalar c)) [
    | inl scalar ↦
        (let e : encode_char c ++ tail ≡ bs = ground arith in
          rw (← e) (
            rw (append_assoc (encode_char c) tail rest) (
              char-decode c (tail ++ rest) scalar ∙ ap (λ t. c ∷ t) (decode-encode cs rest coded))))
    | inr surrogate ↦ absurd (ground arith)
  ]
  | inr (e, failed) ↦ absurd (ground arith)
]
