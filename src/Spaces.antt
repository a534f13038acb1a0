-- ===== src/Spaces.antt =====
-- Python's `str.isspace`, `str.strip` and `str.split`, and the spaces of its regular expressions, `\s`.
use py_wayland_auto.Base.{ℕ, Bool, List, ◌||◌, ◌&&◌, [], ◌∷◌, leb, ◌==◌, if◌then◌else◌, Text}

-- `str.isspace` on a code point.
unfoldable pub is_space : ℕ → Bool
is_space c =
    (leb 9 c && leb c 13)
    || (leb 28 c && leb c 32)
    || c == 0x85
    || c == 0xA0
    || c == 0x1680
    || (leb 0x2000 c && leb c 0x200A)
    || c == 0x2028
    || c == 0x2029
    || c == 0x202F
    || c == 0x205F
    || c == 0x3000

unfoldable pub lstrip : Text → Text
lstrip [] = []
lstrip (c ∷ cs) = if is_space c then lstrip cs else c ∷ cs

abbrev pub keep_space : ℕ → Text → Text
keep_space c [] = if is_space c then [] else c ∷ []
keep_space c (d ∷ ds) = c ∷ d ∷ ds

unfoldable pub rstrip : Text → Text
rstrip [] = []
rstrip (c ∷ cs) = keep_space c (rstrip cs)

-- `str.strip`
unfoldable pub strip : Text → Text
strip t = lstrip (rstrip t)

-- `\s*`
unfoldable pub skip_space : Text → Text
skip_space [] = []
skip_space (c ∷ cs) = if is_space c then skip_space cs else c ∷ cs

abbrev pub extend : ℕ → List Text → List Text
extend c [] = (c ∷ []) ∷ []
extend c (t ∷ ts) = (c ∷ t) ∷ ts

-- `t.split(sep)`, for a separator of one character.
unfoldable pub split_on : ℕ → Text → List Text
split_on sep [] = [] ∷ []
split_on sep (c ∷ cs) = let rest = split_on sep cs in if c == sep then [] ∷ rest else extend c rest
