-- ===== src/TokenCache/Atomic.antt =====
-- pywaylandauto/token_cache.py: a save is all or nothing, and a saved token is loaded.
use py_wayland_auto.Base.{
  ℕ, ◌==◌, ◌≡◌, ◌≢◌, ◌⊎◌, inl, inr, refl, ap, ◌∙◌, false, [], ◌∷◌, Option, none, some, arith, Text,
  Bool-cases,
}
use py_wayland_auto.Outcome.{ok}
use py_wayland_auto.Spaces.{keep_space}
use py_wayland_auto.TokenCache.{
  File, Files, Faults, is_space, lstrip, rstrip, strip, nonempty, newlines, load, private_mode,
  save, save_stripped,
}

-- A saved file, readable by its owner alone.
abbrev pub saved : Text → Option File
saved t = some (record { content = strip t; mode = private_mode })

save_stripped_atomic :
    (f : Faults) (t : Text) (fs : Files)
    → f.close_dir ≡ false
    → f.unlink ≡ false
    → fs.temp ≡ none
    → let (r, after) = save_stripped f t fs in
      (((r ≡ ok tt)
          × (after.token ≡ some (record { content = t; mode = private_mode }))
          × (after.dir_mode ≡ 0o700))
        ⊎ ((r ≢ ok tt) × (after.token ≡ fs.token)))
      × (after.temp ≡ none)
unfolding save_stripped
save_stripped_atomic f [] fs c u n = ground arith
save_stripped_atomic f (x ∷ xs) fs c u n = ground arith

-- Whatever else fails, if the directory's descriptor can be closed and the temporary file
-- unlinked, and no temporary file was there: either `save` returns, the token's file holds the
-- stripped token with mode 0600 and the directory has mode 0700, or it raises and the token's file
-- is as it was. No temporary file is left.
pub save_atomic :
    (f : Faults) (token : Text) (fs : Files)
    → f.close_dir ≡ false
    → f.unlink ≡ false
    → fs.temp ≡ none
    → let (r, after) = save f token fs in
      (((r ≡ ok tt) × (after.token ≡ saved token) × (after.dir_mode ≡ 0o700))
        ⊎ ((r ≢ ok tt) × (after.token ≡ fs.token)))
      × (after.temp ≡ none)
unfolding save
save_atomic f token fs c u n = save_stripped_atomic f (strip token) fs c u n

rstrip-keep_space : (c : ℕ) (u : Text) → rstrip u ≡ u → rstrip (keep_space c u) ≡ keep_space c u
unfolding rstrip
rstrip-keep_space c [] h = ground arith
rstrip-keep_space c (d ∷ ds) h = rw h

rstrip_idem : (t : Text) → rstrip (rstrip t) ≡ rstrip t
unfolding rstrip
rstrip_idem [] = refl
rstrip_idem (c ∷ cs) = rstrip-keep_space c (rstrip cs) (rstrip_idem cs)

keep_space-eq : (c : ℕ) (u v : Text) → keep_space c u ≡ c ∷ v → u ≡ v
keep_space-eq c [] v h = ground arith
keep_space-eq c (d ∷ ds) v h = ground arith

-- What ends in no space still does without the spaces before it.
rstrip-lstrip : (u : Text) → rstrip u ≡ u → rstrip (lstrip u) ≡ lstrip u
unfolding lstrip rstrip
rstrip-lstrip [] h = refl
rstrip-lstrip (c ∷ cs) h = elim (Bool-cases (is_space c)) [
  | inl space ↦ rw space (rstrip-lstrip cs (keep_space-eq c (rstrip cs) cs h))
  | inr letter ↦ rw letter h
]

save-nonempty :
    (f : Faults) (t : Text) (fs : Files)
    → (save_stripped f t fs).0 ≡ ok tt
    → (nonempty t ≡ some t)
      × ((save_stripped f t fs).1.token ≡ some (record { content = t; mode = private_mode }))
unfolding save_stripped
save-nonempty f [] fs h = cc
save-nonempty f (x ∷ xs) fs h = ground arith

load-token :
    (fs : Files) (file : File)
    → fs.token ≡ some file
    → load fs ≡ nonempty (strip (newlines file.content))
unfolding load
load-token fs file h = rw (h, load)

-- What ends in no space still does when it is read in text mode.
newlines-filled : (c : ℕ) (cs : Text) → newlines (c ∷ cs) ≢ []
unfolding newlines
newlines-filled c [] = ground arith
newlines-filled c (d ∷ ds) =
    let more = newlines-filled d ds in
    elim (Bool-cases (c == 13)) [
      | inr other ↦ rw (other, newlines) (λ e. cc)
      | inl return ↦ elim (Bool-cases (d == 10)) [
        | inl feed ↦ rw (return, feed, newlines) more
        | inr letter ↦ rw (return, letter, newlines) (λ e. cc)
      ]
    ]

keep_space-filled : (c : ℕ) (u : Text) → u ≢ [] → keep_space c u ≡ c ∷ u
keep_space-filled c [] h = absurd (h refl)
keep_space-filled c (d ∷ ds) h = refl

rstrip-filled : (c : ℕ) (u : Text) → rstrip u ≡ u → u ≢ [] → rstrip (c ∷ u) ≡ c ∷ u
unfolding rstrip
rstrip-filled c u h filled = ap (keep_space c) h ∙ keep_space-filled c u filled

rstrip-newlines : (u : Text) → rstrip u ≡ u → rstrip (newlines u) ≡ newlines u
unfolding rstrip newlines is_space
rstrip-newlines [] h = refl
rstrip-newlines (c ∷ []) h = ground arith
rstrip-newlines (c ∷ d ∷ ds) h =
    let kept = rstrip-newlines (d ∷ ds) (keep_space-eq c (rstrip (d ∷ ds)) (d ∷ ds) h) in
    let filled = newlines-filled d ds in
    elim (Bool-cases (c == 13)) [
      | inr other ↦ rw (other, newlines) (rstrip-filled c (newlines (d ∷ ds)) kept filled)
      | inl return ↦ elim (Bool-cases (d == 10)) [
        | inl feed ↦ rw (return, feed, newlines) kept
        | inr letter ↦
            rw (return, letter, newlines) (rstrip-filled 10 (newlines (d ∷ ds)) kept filled)
      ]
    ]

lstrip-newlines : (u : Text) → lstrip (newlines (lstrip u)) ≡ newlines (lstrip u)
unfolding lstrip newlines is_space
lstrip-newlines [] = refl
lstrip-newlines (c ∷ cs) = elim (Bool-cases (is_space c)) [
  | inl space ↦ rw (space, lstrip) (lstrip-newlines cs)
  | inr letter ↦
      (let other : (c == 13) ≡ false = ground arith in
        rw (letter, lstrip) (rw (other, newlines) (rw (letter, lstrip) refl)))
]

strip-newlines : (t : Text) → strip (newlines (strip t)) ≡ newlines (strip t)
unfolding strip
strip-newlines t =
    ap lstrip (rstrip-newlines (lstrip (rstrip t)) (rstrip-lstrip (rstrip t) (rstrip_idem t)))
    ∙ lstrip-newlines (rstrip t)

nonempty-newlines : (u : Text) → nonempty u ≡ some u → nonempty (newlines u) ≡ some (newlines u)
nonempty-newlines [] h = cc
nonempty-newlines (c ∷ cs) h = filled (newlines (c ∷ cs)) (newlines-filled c cs)
  where
    filled : (u : Text) → u ≢ [] → nonempty u ≡ some u
    filled [] bad = absurd (bad refl)
    filled (d ∷ ds) _ = refl

-- A token that was saved is loaded from whatever the files held and with whatever faults, if `save`
-- returned: without the spaces around it, and as text mode reads it, with a line feed for a carriage
-- return.
pub load-save :
    (f : Faults) (token : Text) (fs : Files)
    → (save f token fs).0 ≡ ok tt
    → load (save f token fs).1 ≡ some (newlines (strip token))
unfolding save
load-save f token fs h =
    let (some_letter, written) = save-nonempty f (strip token) fs h in
    load-token _ _ written
    ∙ ap nonempty (strip-newlines token)
    ∙ nonempty-newlines (strip token) some_letter
