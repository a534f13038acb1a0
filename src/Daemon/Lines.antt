-- ===== src/Daemon/Lines.antt =====
-- pywaylandauto/daemon.py, `_on_client_ready`: how the bytes of a client are cut into lines.
use py_wayland_auto.Base.{
  ℕ, ◌≡◌, refl, ap, ◌∙◌, Bool, true, false, List, [], ◌∷◌, ◌++◌, ◌==◌, ltb, if◌then◌else◌, length,
  Bytes, Bool-cases, inl, inr,
}
use py_wayland_auto.Protocol.{max_line}

abbrev pub newline : ℕ
newline = 10

-- The line that a byte comes before.
abbrev pub extend : ℕ → List Bytes × Bytes → List Bytes × Bytes
extend b ([], rest) = ([], b ∷ rest)
extend b (line ∷ lines, rest) = ((b ∷ line) ∷ lines, rest)

-- `while b"\n" in buf: line, _, rest = buf.partition(b"\n")`: the whole lines, and what stays.
unfoldable pub split_lines : Bytes → List Bytes × Bytes
split_lines [] = ([], [])
split_lines (b ∷ bs) =
    let rest = split_lines bs in if b == newline then ([] ∷ rest.0, rest.1) else extend b rest

-- What a round does with the lines and the buffer, in a state of its own: `handle` answers a line,
-- and is false if the answer could not be sent.
module _ {S : Type 0} (handle : Bytes → S → Bool × S) where
  -- The `while` loop: false if it ended by dropping the client.
  unfoldable pub serve : List Bytes → S → Bool × S
  serve [] s = (true, s)
  serve (line ∷ lines) s =
      let (sent, s') = handle line s in elim sent [ true ↦ serve lines s' | false ↦ (false, s') ]

  -- `_on_client_ready` on received data: whether the client is kept, and its buffer.
  unfoldable pub client_ready : Bytes → Bytes → S → Bool × Bytes × S
  client_ready buf chunk s =
      let (lines, rest) = split_lines (buf ++ chunk) in
      let (kept, s') = serve lines s in
      if kept
      then (if ltb max_line (length rest) then (false, [], s') else (true, rest, s'))
      else (false, [], s')

extend-split_lines :
    (b : ℕ) (p : List Bytes × Bytes) (cs : Bytes)
    → (b == newline) ≡ false
    → extend b (p.0 ++ (split_lines (p.1 ++ cs)).0, (split_lines (p.1 ++ cs)).1) ≡ (
      (extend b p).0 ++ (split_lines ((extend b p).1 ++ cs)).0,
      (split_lines ((extend b p).1 ++ cs)).1,
    )
unfolding split_lines
extend-split_lines b ([], rest) cs h = rw h refl
extend-split_lines b (line ∷ lines, rest) cs h = refl

-- The lines of a stream do not depend on where it is cut: those of the first part, and then those
-- of what the first part left over with the second behind it.
pub split_lines-append :
    (bs cs : Bytes)
    → split_lines (bs ++ cs) ≡ (
      (split_lines bs).0 ++ (split_lines ((split_lines bs).1 ++ cs)).0,
      (split_lines ((split_lines bs).1 ++ cs)).1,
    )
unfolding split_lines
split_lines-append [] cs = refl
split_lines-append (b ∷ bs) cs = elim (Bool-cases (b == newline)) [
  | inl ends ↦ rw ends (ap (λ p. ([] ∷ p.0, p.1)) (split_lines-append bs cs))
  | inr inside ↦
      rw inside
        (ap (extend b) (split_lines-append bs cs) ∙ extend-split_lines b (split_lines bs) cs inside)
]
