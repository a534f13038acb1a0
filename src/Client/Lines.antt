-- ===== src/Client/Lines.antt =====
-- The lines that `_read_line` finds do not depend on how they arrive.
use py_wayland_auto.Base.{
  concat, ℕ, ◌≡◌, ◌≢◌, refl, sym, ap, subst, ◌∙◌, true, false, List, [], ◌∷◌, ◌++◌, Option, none,
  some, ◌==◌, Bytes, Bool-cases, Option-cases, inl, inr, append-nil, append_assoc, All,
}
use py_wayland_auto.Outcome.{ok}
use py_wayland_auto.Daemon.Lines.{newline}
use py_wayland_auto.Client.{Arrival, chunk, break_line, onto_line, read_line}

-- Received data is not empty.
abbrev pub IsData : Bytes → Type 0
IsData [] = ⊥
IsData (b ∷ bs) = Unit

abbrev pub chunks_of : List Bytes → List Arrival
chunks_of [] = []
chunks_of (bs ∷ chunks) = chunk bs ∷ chunks_of chunks

break_line-newline :
    (b : ℕ) (bs : Bytes) → (b == newline) ≡ true → break_line (b ∷ bs) ≡ some ([], bs)
unfolding break_line
break_line-newline b bs ends = rw ends refl

break_line-other :
    (b : ℕ) (bs : Bytes)
    → (b == newline) ≡ false
    → break_line (b ∷ bs) ≡ onto_line b (break_line bs)
unfolding break_line
break_line-other b bs inside = rw inside refl

break_line-empty : (p : Bytes × Bytes) → break_line [] ≢ some p
unfolding break_line
break_line-empty p e = cc

abbrev grown : Bytes → Option (Bytes × Bytes) → Option (Bytes × Bytes)
grown more none = none
grown more (some (line, rest)) = some (line, rest ++ more)

-- A first line is there still when more arrives.
pub break_line-append :
    (bs more : Bytes) (p : Bytes × Bytes)
    → break_line bs ≡ some p
    → break_line (bs ++ more) ≡ some (p.0, p.1 ++ more)
break_line-append [] more p h = absurd (break_line-empty p h)
break_line-append (b ∷ bs) more p h = elim (Bool-cases (b == newline)) [
  | inl ends ↦
      break_line-newline b (bs ++ more) ends
      ∙ ap (grown more) (sym (break_line-newline b bs ends) ∙ h)
  | inr inside ↦ elim (Option-cases (break_line bs)) [
    | inl e ↦ absurd (differ (sym (ap (onto_line b) e) ∙ sym (break_line-other b bs inside) ∙ h))
    | inr (q, e) ↦
        break_line-other b (bs ++ more) inside
        ∙ ap (onto_line b) (break_line-append bs more q e)
        ∙ ap (grown more) (sym (ap (onto_line b) e) ∙ sym (break_line-other b bs inside) ∙ h)
  ]
]
  where
    differ : ◌≡◌ {A = Option (Bytes × Bytes)} none (some p) → ⊥
    differ e = cc

-- A line without a newline is broken off at the newline behind it.
pub break_line-line :
    (line rest : Bytes)
    → break_line line ≡ none
    → break_line (line ++ newline ∷ rest) ≡ some (line, rest)
break_line-line [] rest h = break_line-newline newline rest refl
break_line-line (b ∷ bs) rest h = elim (Bool-cases (b == newline)) [
  | inl ends ↦ absurd (differ ([], bs) (sym h ∙ break_line-newline b bs ends))
  | inr inside ↦ elim (Option-cases (break_line bs)) [
    | inl e ↦
        break_line-other b (bs ++ newline ∷ rest) inside
        ∙ ap (onto_line b) (break_line-line bs rest e)
    | inr (q, e) ↦
        absurd (differ (b ∷ q.0, q.1) (sym h ∙ break_line-other b bs inside ∙ ap (onto_line b) e))
  ]
]
  where
    differ : (p : Bytes × Bytes) → ◌≡◌ {A = Option (Bytes × Bytes)} none (some p) → ⊥
    differ p e = cc

-- What `_read_line` leaves of a stream when it has taken the first line.
pub record TakesLine (arrivals : List Arrival) (buf line rest : Bytes) : Type 0 where
  pub buf' : Bytes
  pub chunks' : List Bytes
  pub read : read_line arrivals buf ≡ (ok line, buf', chunks_of chunks')
  pub remains : buf' ++ concat chunks' ≡ rest
  pub are_data : All IsData chunks'

abbrev line_or : Bytes → Option (Bytes × Bytes) → Bytes
line_or other none = other
line_or other (some (line, rest)) = line

abbrev rest_or : Bytes → Option (Bytes × Bytes) → Bytes
rest_or other none = other
rest_or other (some (line, rest)) = rest

pub read_line-TakesLine :
    (chunks : List Bytes) (buf line rest : Bytes)
    → All IsData chunks
    → break_line (buf ++ concat chunks) ≡ some (line, rest)
    → TakesLine (chunks_of chunks) buf line rest
unfolding read_line
read_line-TakesLine [] buf line rest d h =
    let found : break_line buf ≡ some (line, rest) =
      subst (λ b. break_line b ≡ some (line, rest)) (append-nil buf) h in
    record {
      buf' = rest;
      chunks' = [];
      read = rw (found, read_line);
      remains = append-nil rest;
      are_data = tt;
    }
read_line-TakesLine ([] ∷ chunks) buf line rest d h = absurd d.0
read_line-TakesLine ((b ∷ bs) ∷ chunks) buf line rest d h = elim (Option-cases (break_line buf)) [
  | inl e ↦
      let later = read_line-TakesLine chunks (buf ++ b ∷ bs) line rest d.1 (
        subst (λ s. break_line s ≡ some (line, rest))
          (sym (append_assoc buf (b ∷ bs) (concat chunks))) h) in
      record {
        buf' = later.buf';
        chunks' = later.chunks';
        read = rw (e, read_line) later.read;
        remains = later.remains;
        are_data = later.are_data;
      }
  | inr (q, e) ↦
      let same : some (q.0, q.1 ++ concat ((b ∷ bs) ∷ chunks)) ≡ some (line, rest) =
        sym (break_line-append buf (concat ((b ∷ bs) ∷ chunks)) q e) ∙ h in
      record {
        buf' = q.1;
        chunks' = (b ∷ bs) ∷ chunks;
        read =
            rw (e, read_line)
              (ap (λ l. (ok l, q.1, chunks_of ((b ∷ bs) ∷ chunks))) (ap (line_or line) same));
        remains = ap (rest_or rest) same;
        are_data = d;
      }
]
