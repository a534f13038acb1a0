-- ===== src/Framing/Chunks.antt =====
-- The messages that are dispatched do not depend on how the stream is cut into chunks.
use py_wayland_auto.Base.{
  ◌≢◌, ◌⊎◌, ℕ, ◌<◌, ◌≡◌, refl, sym, ap, subst, ◌∙◌, inl, inr, List, [], ◌∷◌, ◌++◌, Option, none,
  some, length, Bytes, arith, append_assoc, append-nil, length-append, All, concat,
}
use py_wayland_auto.Outcome.{Exn, Result, ok, raised, Result-cases}
use py_wayland_auto.Framing.{dispatch_all, stream, drain, pump_all, Reads}
use py_wayland_auto.Framing.Drain.{dispatch_all-append, dispatch_all-append_raised, drain-Progress}

pub All-append_right {ℓ κ} :
    {A : Type ℓ} (P : A → Type κ) (fs gs : List A) → All P (fs ++ gs) → All P gs
All-append_right P [] gs h = h
All-append_right P (f ∷ fs) gs h = All-append_right P fs gs h.1

module _ {M S : Type 0} (next : Bytes → Option (M × Bytes)) (written : M → Bytes)
    (Fits : M → Type 0) (reads : Reads next written Fits)
    (dispatch : M → S → Result (Unit {0}) × S) where
  -- What the calls of `_pump_once` do of a stream whose first bytes wait in the buffer.
  abbrev Delivers : ℕ → S → Bytes → List Bytes → List M → Type 0
  Delivers fuel s buf chunks frames =
      let (r, s') = dispatch_all dispatch s frames in
      (left : Bytes) × (pump_all next dispatch fuel s buf chunks ≡ some (r, s', left))
      × (r ≡ ok tt → left ≡ [])

  pub no_message_left :
      (buf : Bytes) (frames : List M)
      → All Fits frames
      → buf ≡ stream written frames
      → next buf ≡ none
      → frames ≡ []
  no_message_left buf [] fits e h = refl
  no_message_left buf (f ∷ fs) fits e h =
      let bad : ◌≡◌ {A = Option (M × Bytes)} none (some (f, stream written fs)) =
        sym h ∙ ap next e ∙ unfold stream in reads.first f (stream written fs) fits.0 in
      cc

  pump_all-ok :
      (fuel : ℕ) (s s' : S) (r : Result (Unit {0})) (buf left c : Bytes) (cs : List Bytes)
      → drain next dispatch fuel s (buf ++ c) ≡ some (r, s', left)
      → r ≡ ok tt
      → pump_all next dispatch fuel s buf (c ∷ cs) ≡ pump_all next dispatch fuel s' left cs
  unfolding pump_all
  pump_all-ok fuel s s' r buf left c cs h k = rw (h, k, pump_all)

  pump_all-raised :
      (fuel : ℕ) (s s' : S) (r : Result (Unit {0})) (buf left c : Bytes) (cs : List Bytes) {e : Exn}
      → drain next dispatch fuel s (buf ++ c) ≡ some (r, s', left)
      → r ≡ raised e
      → pump_all next dispatch fuel s buf (c ∷ cs) ≡ some (r, s', left)
  unfolding pump_all
  pump_all-raised fuel s s' r buf left c cs h k = rw (h, k, pump_all)

  receive-Delivers :
      (chunks : List Bytes) (frames : List M) (fuel : ℕ) (s : S) (buf : Bytes)
      → length frames < fuel
      → All Fits frames
      → buf ++ concat chunks ≡ stream written frames
      → next buf ≡ none
      → Delivers fuel s buf chunks frames
  unfolding pump_all dispatch_all
  receive-Delivers [] frames fuel s buf short fits e h =
      let whole : buf ≡ stream written frames = sym (append-nil buf) ∙ e in
      let none_left : frames ≡ [] = no_message_left buf frames fits whole h in
      (
        buf,
        ap (λ r. some (r.0, r.1, buf)) (sym (ap (dispatch_all dispatch s) none_left)),
        λ _. whole ∙ ap (stream written) none_left ∙ unfold stream in refl,
      )
  receive-Delivers (c ∷ cs) frames fuel s buf short fits e h =
      let p =
        drain-Progress next written Fits reads dispatch frames fuel s (buf ++ c) (concat cs) short
          fits (append_assoc buf c (concat cs) ∙ e) in
      elim (Result-cases (dispatch_all dispatch s p.handled).0) [
        | inl (_, k) ↦
            (let s1 = (dispatch_all dispatch s p.handled).1 in
              let all : dispatch_all dispatch s frames ≡ dispatch_all dispatch s1 p.coming =
                ap (dispatch_all dispatch s) p.split
                ∙ dispatch_all-append dispatch s p.handled p.coming k in
              let fewer : length p.coming < fuel =
                omega (arith, ap length p.split, length-append p.handled p.coming) in
              let fits' =
                All-append_right Fits p.handled p.coming (subst (All Fits) p.split fits) in
              let (left, later, done) =
                receive-Delivers cs p.coming fuel s1 p.left fewer fits' p.remains (p.waits k) in
              (
                left,
                pump_all-ok fuel s s1 _ buf p.left c cs p.drained k
                    ∙ later
                    ∙ ap (λ r. some (r.0, r.1, left)) (sym all),
                λ good. done (ap (λ r. r.0) (sym all) ∙ good),
              ))
        | inr (x, k) ↦
            (let all : dispatch_all dispatch s frames ≡ dispatch_all dispatch s p.handled =
                ap (dispatch_all dispatch s) p.split
                ∙ dispatch_all-append_raised dispatch s p.handled p.coming k in
              (
                p.left,
                pump_all-raised fuel s _ _ buf p.left c cs p.drained k
                    ∙ ap (λ r. some (r.0, r.1, p.left)) (sym all),
                λ good. (let bad : raised x ≡ ok tt = sym k ∙ ap (λ r. r.0) (sym all) ∙ good in cc),
              ))
      ]

  -- The chunks of a stream of messages that fit: all are dispatched until one raises, and where none
  -- does nothing is left in the buffer.
  pub pump_all-Delivers :
      (chunks : List Bytes) (frames : List M) (fuel : ℕ) (s : S)
      → length frames < fuel
      → All Fits frames
      → concat chunks ≡ stream written frames
      → let (r, s') = dispatch_all dispatch s frames in
        (left : Bytes) × (pump_all next dispatch fuel s [] chunks ≡ some (r, s', left))
        × ((r ≢ ok tt) ⊎ (left ≡ []))
  pump_all-Delivers chunks frames fuel s short fits e =
      let (left, run, done) = receive-Delivers chunks frames fuel s [] short fits e reads.empty in
      elim (Result-cases (dispatch_all dispatch s frames).0) [
        | inl (_, k) ↦ (left, run, inr (done k))
        | inr (x, k) ↦ (left, run, inl (λ good. (let bad : raised x ≡ ok tt = sym k ∙ good in cc)))
      ]
