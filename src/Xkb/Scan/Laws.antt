-- ===== src/Xkb/Scan/Laws.antt =====
-- What the expressions match at a place, and that `finditer` has rounds enough.
use py_wayland_auto.Base.{
  ℕ, zero, suc, ◌<◌, ◌≤◌, ◌≡◌, refl, ap, inl, inr, Bool, [], ◌∷◌, Option, none, some, ◌==◌, Text,
  codes, length, arith, Bool-cases, Option-cases,
}
use py_wayland_auto.Spaces.{skip_space}
use py_wayland_auto.Xkb.Scan.{
  is_digit, is_word, ◌>>=◌, literal, span, many, nonempty_span, angled, Match, keycode_at, alias_at,
  is_inner, key_at, matches, finditer,
}

-- A match takes a character at least.
abbrev pub Shrinks : (Text → Match) → Type 0
Shrinks at =
    (t : Text) (groups : Text × Text) (rest : Text)
    → at t ≡ some (groups, rest)
    → length rest < length t

-- A chain that gives something, by its first step.
some-bind :
    {A B : Type 0} (o : Option A) (f : A → Option B) {b : B}
    → (o >>= f) ≡ some b
    → (a : A) × (o ≡ some a) × (f a ≡ some b)
some-bind none f h = cc
some-bind (some a) f h = (a, refl, h)

-- What is left is shorter, or no longer.
literal-le : (xs t rest : Text) → literal xs t ≡ some rest → length rest ≤ length t
unfolding literal
literal-le [] t rest h = let e : t ≡ rest = cc in rw e (omega arith)
literal-le (x ∷ xs) [] rest h = cc
literal-le (x ∷ xs) (c ∷ cs) rest h = elim (Bool-cases (x == c)) [
  | inl same ↦ (let later = literal-le xs cs rest (rw (same, literal) at h) in omega arith)
  | inr other ↦
      (let bad : ◌≡◌ {A = Option Text} none (some rest) = rw (other, literal) at h in absurd (cc))
]

literal-lt : (x : ℕ) (xs t rest : Text) → literal (x ∷ xs) t ≡ some rest → length rest < length t
unfolding literal
literal-lt x xs [] rest h = cc
literal-lt x xs (c ∷ cs) rest h = elim (Bool-cases (x == c)) [
  | inl same ↦ (let later = literal-le xs cs rest (rw (same, literal) at h) in omega arith)
  | inr other ↦
      (let bad : ◌≡◌ {A = Option Text} none (some rest) = rw (other, literal) at h in absurd (cc))
]

skip_space-le : (t : Text) → length (skip_space t) ≤ length t
unfolding skip_space
skip_space-le [] = omega arith
skip_space-le (c ∷ cs) = ground (arith, skip_space-le cs)

span-le : (p : ℕ → Bool) (t : Text) → length (span p t).1 ≤ length t
unfolding span
span-le p [] = omega arith
span-le p (c ∷ cs) = ground (arith, span-le p cs)

many-le :
    (p : ℕ → Bool) (t taken rest : Text) → many p t ≡ some (taken, rest) → length rest ≤ length t
unfolding many
many-le p t taken rest h = go (span p t) (span-le p t) h
  where
    go :
        (s : Text × Text)
        → length s.1 ≤ length t
        → nonempty_span s ≡ some (taken, rest)
        → length rest ≤ length t
    go ([], r) le e = cc
    go (c ∷ cs, r) le e = let same : r ≡ rest = cc in rw (← same) le

same_rest :
    {A : Type 0} {a b : A} {r rest : Text}
    → ◌≡◌ {A = Option (A × Text)} (some (a, r)) (some (b, rest))
    → r ≡ rest
same_rest h = cc

angled-lt : (t name rest : Text) → angled t ≡ some (name, rest) → length rest < length t
unfolding angled
angled-lt t name rest h =
    let (inside, e1, h1) = some-bind (literal (codes "<") t) _ h in
    let ((n, behind), e2, h2) = some-bind (many is_word (skip_space inside)) _ h1 in
    let (r, e3, h3) = some-bind (literal (codes ">") (skip_space behind)) _ h2 in
    let same : r ≡ rest = same_rest h3 in
    omega (
      arith,
      literal-lt b'<' [] t inside e1,
      skip_space-le inside,
      many-le is_word (skip_space inside) n behind e2,
      skip_space-le behind,
      literal-lt b'>' [] (skip_space behind) r e3,
      ap length same,
    )

pub keycode_at-Shrinks : Shrinks keycode_at
unfolding keycode_at
keycode_at-Shrinks t groups rest h =
    let ((name, behind), e1, h1) = some-bind (angled t) _ h in
    let (value, e2, h2) = some-bind (literal (codes "=") (skip_space behind)) _ h1 in
    let ((digits, r), e3, h3) = some-bind (many is_digit (skip_space value)) _ h2 in
    let same : r ≡ rest = same_rest h3 in
    omega (
      arith,
      angled-lt t name behind e1,
      skip_space-le behind,
      literal-lt b'=' [] (skip_space behind) value e2,
      skip_space-le value,
      many-le is_digit (skip_space value) digits r e3,
      ap length same,
    )

pub alias_at-Shrinks : Shrinks alias_at
unfolding alias_at
alias_at-Shrinks t groups rest h =
    let (first, e1, h1) = some-bind (literal (codes "alias") t) _ h in
    let ((name, behind), e2, h2) = some-bind (angled (skip_space first)) _ h1 in
    let (value, e3, h3) = some-bind (literal (codes "=") (skip_space behind)) _ h2 in
    let ((target, r), e4, h4) = some-bind (angled (skip_space value)) _ h3 in
    let same : r ≡ rest = same_rest h4 in
    omega (
      arith,
      literal-le (codes "alias") t first e1,
      skip_space-le first,
      angled-lt (skip_space first) name behind e2,
      skip_space-le behind,
      literal-le (codes "=") (skip_space behind) value e3,
      skip_space-le value,
      angled-lt (skip_space value) target r e4,
      ap length same,
    )

pub key_at-Shrinks : Shrinks key_at
unfolding key_at
key_at-Shrinks t groups rest h =
    let (first, e1, h1) = some-bind (literal (codes "key") t) _ h in
    let ((name, behind), e2, h2) = some-bind (angled (skip_space first)) _ h1 in
    let (block, e3, h3) = some-bind (literal (codes "{") (skip_space behind)) _ h2 in
    let (list, e4, h4) = some-bind (literal (codes "[") (skip_space block)) _ h3 in
    let ((body, closing), e5, h5) = some-bind (many is_inner list) _ h4 in
    let (after, e6, h6) = some-bind (literal (codes "]") closing) _ h5 in
    let (r, e7, h7) = some-bind (literal (codes "}") (skip_space after)) _ h6 in
    let same : r ≡ rest = same_rest h7 in
    omega (
      arith,
      literal-le (codes "key") t first e1,
      skip_space-le first,
      angled-lt (skip_space first) name behind e2,
      skip_space-le behind,
      literal-le (codes "{") (skip_space behind) block e3,
      skip_space-le block,
      literal-le (codes "[") (skip_space block) list e4,
      many-le is_inner list body closing e5,
      literal-le (codes "]") closing after e6,
      skip_space-le after,
      literal-le (codes "}") (skip_space after) r e7,
      ap length same,
    )

same_matches :
    (at : Text → Match)
    → Shrinks at
    → (f g : ℕ) (t : Text) → length t ≤ f
    → length t ≤ g
    → matches at f t ≡ matches at g t
unfolding matches
same_matches at shrinks zero zero t hf hg = refl
same_matches at shrinks zero (suc g) [] hf hg = refl
same_matches at shrinks zero (suc g) (c ∷ cs) hf hg = absurd (omega arith)
same_matches at shrinks (suc f) zero [] hf hg = refl
same_matches at shrinks (suc f) zero (c ∷ cs) hf hg = absurd (omega arith)
same_matches at shrinks (suc f) (suc g) [] hf hg = refl
same_matches at shrinks (suc f) (suc g) (c ∷ cs) hf hg = elim (Option-cases (at (c ∷ cs))) [
  | inl absent ↦ rw (absent, matches) (same_matches at shrinks f g cs (omega arith) (omega arith))
  | inr ((groups, rest), found) ↦
      (let less = shrinks (c ∷ cs) groups rest found in
        rw (found, matches)
          (ap (λ later. groups ∷ later)
            (same_matches at shrinks f g rest (omega arith) (omega arith))))
]

-- With an expression that takes a character at least, `finditer` has rounds enough: it gives the match
-- at the front, if there is one, and those behind it, and otherwise those that begin further on.
pub finditer_lem :
    (at : Text → Match)
    → Shrinks at
    → (c : ℕ) (cs : Text)
    → finditer at (c ∷ cs) ≡ elim (at (c ∷ cs)) [
      | some (groups, rest) ↦ groups ∷ finditer at rest
      | none ↦ finditer at cs
    ]
unfolding matches
finditer_lem at shrinks c cs = elim (Option-cases (at (c ∷ cs))) [
  | inl absent ↦ rw absent refl
  | inr ((groups, rest), found) ↦
      (let less = shrinks (c ∷ cs) groups rest found in
        rw found (
          ap (λ later. groups ∷ later)
            (same_matches at shrinks (length cs) (length rest) rest (omega arith) (omega arith))))
]
