-- ===== src/Xkb/Scan.antt =====
-- The regular expressions of pywaylandauto/backends/xkb.py and what the parser uses of `str.split`.
-- In each expression a repetition is followed by a character that it cannot take, so that taking as
-- much as possible is the only way to match. `\d` is written for ASCII digits.
pub mod Laws
use py_wayland_auto.Base.{
  ℕ, zero, suc, Bool, true, false, ◌&&◌, ◌||◌, not, List, [], ◌∷◌, Option, none, some, leb, ◌==◌,
  if◌then◌else◌, Text, codes, length,
}
use py_wayland_auto.Spaces.{is_space, skip_space, split_on}

-- `[A-Za-z0-9_]`
abbrev pub is_digit : ℕ → Bool
is_digit c = leb b'0' c && leb c b'9'

abbrev pub is_word : ℕ → Bool
is_word c = (leb b'A' c && leb c b'Z') || (leb b'a' c && leb c b'z') || is_digit c || c == b'_'

infixl 5 ◌>>=◌
abbrev pub ◌>>=◌ {ℓ κ} : {A : Type ℓ} {B : Type κ} → Option A → (A → Option B) → Option B
none >>= f = none
some a >>= f = f a

-- The text behind a literal that it begins with.
unfoldable pub literal : Text → Text → Option Text
literal [] t = some t
literal (x ∷ xs) [] = none
literal (x ∷ xs) (c ∷ cs) = if x == c then literal xs cs else none

-- The longest prefix of such characters, and what follows.
unfoldable pub span : (ℕ → Bool) → Text → Text × Text
span p [] = ([], [])
span p (c ∷ cs) = let (taken, rest) = span p cs in if p c then (c ∷ taken, rest) else ([], c ∷ cs)

abbrev nonempty_span : Text × Text → Option (Text × Text)
nonempty_span ([], rest) = none
nonempty_span (c ∷ taken, rest) = some (c ∷ taken, rest)

-- `[…]+`
unfoldable pub many : (ℕ → Bool) → Text → Option (Text × Text)
unfolding span
many p t = nonempty_span (span p t)

-- `<\s*([A-Za-z0-9_]+)\s*>`
unfoldable pub angled : Text → Option (Text × Text)
unfolding literal many skip_space
angled t = do
  inside ← literal (codes "<") t
  (name, behind) ← many is_word (skip_space inside)
  rest ← literal (codes ">") (skip_space behind)
  some (name, rest)

-- A match at the front: its two groups and what follows.
abbrev pub Match : Type 0
Match = Option ((Text × Text) × Text)

-- `_KEYCODE_RE`
unfoldable pub keycode_at : Text → Match
unfolding angled literal many skip_space
keycode_at t = do
  (name, behind) ← angled t
  value ← literal (codes "=") (skip_space behind)
  (digits, rest) ← many is_digit (skip_space value)
  some ((name, digits), rest)

-- `_ALIAS_RE`
unfoldable pub alias_at : Text → Match
unfolding angled literal skip_space
alias_at t = do
  first ← literal (codes "alias") t
  (name, behind) ← angled (skip_space first)
  value ← literal (codes "=") (skip_space behind)
  (target, rest) ← angled (skip_space value)
  some ((name, target), rest)

-- `[^\]]`
abbrev pub is_inner : ℕ → Bool
is_inner c = not (c == b']')

-- `_KEY_SYMBOLS_RE`
unfoldable pub key_at : Text → Match
unfolding angled literal many skip_space
key_at t = do
  first ← literal (codes "key") t
  (name, behind) ← angled (skip_space first)
  block ← literal (codes "{") (skip_space behind)
  list ← literal (codes "[") (skip_space block)
  (body, closing) ← many is_inner list
  after ← literal (codes "]") closing
  rest ← literal (codes "}") (skip_space after)
  some ((name, body), rest)

-- `finditer`: the matches from left to right, each search behind the match before it. A match takes
-- a character at least, so that as many rounds as there are characters are enough.
unfoldable pub matches : (Text → Match) → ℕ → Text → List (Text × Text)
matches at zero t = []
matches at (suc fuel) [] = []
matches at (suc fuel) (c ∷ cs) = elim (at (c ∷ cs)) [
  | some (groups, rest) ↦ groups ∷ matches at fuel rest
  | none ↦ matches at fuel cs
]

abbrev pub finditer : (Text → Match) → Text → List (Text × Text)
finditer at t = matches at (length t) t

-- `t.split(sep)[0]`
unfoldable pub before : Text → Text → Text
before sep [] = []
before sep (c ∷ cs) =
    let rest = before sep cs in elim (literal sep (c ∷ cs)) [ some _ ↦ [] | none ↦ c ∷ rest ]

-- What follows the first `sep`, where there is one.
unfoldable pub behind : Text → Text → Option Text
unfolding literal
behind sep [] = literal sep []
behind sep (c ∷ cs) =
    let later = behind sep cs in
    elim (literal sep (c ∷ cs)) [ some rest ↦ some rest | none ↦ later ]

-- `body.split(",")`
abbrev pub split_commas : Text → List Text
split_commas = split_on b','
