-- ===== src/Framing/Drain.antt =====
-- What one drain of the buffer does of a stream writtenf messages.
use py_wayland_auto.Base.{
  ℕ, zero, suc, ◌<◌, ◌≡◌, refl, sym, ap, ◌∙◌, inl, inr, List, [], ◌∷◌, ◌++◌, Option, none, some,
  length, Bytes, arith, Option-cases, All,
}
use py_wayland_auto.Outcome.{Exn, Result, ok, raised, Result-cases}
use py_wayland_auto.Framing.{dispatch_all, stream, drain, Reads}

module _ {M S : Type 0} (dispatch : M → S → Result (Unit {0}) × S) where
  abbrev pub AllOk : S → List M → Type 0
  AllOk s frames = (dispatch_all dispatch s frames).0 ≡ ok tt

  dispatch_all-cons :
      (s : S) (f : M) (fs : List M)
      → (dispatch f s).0 ≡ ok tt
      → dispatch_all dispatch s (f ∷ fs) ≡ dispatch_all dispatch (dispatch f s).1 fs
  unfolding dispatch_all
  dispatch_all-cons s f fs h = rw (h, dispatch_all)

  dispatch_all-cons_raised :
      (s : S) (f : M) (fs : List M) {e : Exn}
      → (dispatch f s).0 ≡ raised e
      → dispatch_all dispatch s (f ∷ fs) ≡ (raised e, (dispatch f s).1)
  unfolding dispatch_all
  dispatch_all-cons_raised s f fs h = rw (h, dispatch_all)

  -- Messages that are all handled, and those behind them.
  pub dispatch_all-append :
      (s : S) (fs gs : List M)
      → AllOk s fs
      → dispatch_all dispatch s (fs ++ gs) ≡ dispatch_all dispatch (dispatch_all dispatch s fs).1 gs
  unfolding dispatch_all
  dispatch_all-append s [] gs h = refl
  dispatch_all-append s (f ∷ fs) gs h = elim (Result-cases (dispatch f s).0) [
    | inl (_, k) ↦
        (let h' : AllOk (dispatch f s).1 fs =
            ap (λ r. r.0) (sym (dispatch_all-cons s f fs k)) ∙ h in
          dispatch_all-cons s f (fs ++ gs) k
          ∙ dispatch_all-append (dispatch f s).1 fs gs h'
          ∙ ap (λ r. dispatch_all dispatch r.1 gs) (sym (dispatch_all-cons s f fs k)))
    | inr (e, k) ↦
        (let bad : raised e ≡ ok tt = ap (λ r. r.0) (sym (dispatch_all-cons_raised s f fs k)) ∙ h in
          cc)
  ]

  pub dispatch_all-append_raised :
      (s : S) (fs gs : List M) {e : Exn}
      → (dispatch_all dispatch s fs).0 ≡ raised e
      → dispatch_all dispatch s (fs ++ gs) ≡ dispatch_all dispatch s fs
  unfolding dispatch_all
  dispatch_all-append_raised s [] gs h = cc
  dispatch_all-append_raised s (f ∷ fs) gs h = elim (Result-cases (dispatch f s).0) [
    | inl (_, k) ↦
        (let h' = ap (λ r. r.0) (sym (dispatch_all-cons s f fs k)) ∙ h in
          dispatch_all-cons s f (fs ++ gs) k
          ∙ dispatch_all-append_raised (dispatch f s).1 fs gs h'
          ∙ sym (dispatch_all-cons s f fs k))
    | inr (e', k) ↦
        dispatch_all-cons_raised s f (fs ++ gs) k ∙ sym (dispatch_all-cons_raised s f fs k)
  ]

module _ {M S : Type 0} (next : Bytes → Option (M × Bytes)) (written : M → Bytes)
    (Fits : M → Type 0) (reads : Reads next written Fits)
    (dispatch : M → S → Result (Unit {0}) × S) where
  -- What a drain of the bytes `x` has done of the messages: those handled, those still to come,
  -- and the bytes left.
  pub record Progress (fuel : ℕ) (s : S) (x y : Bytes) (frames : List M) : Type 0 where
    pub handled : List M
    pub coming : List M
    pub left : Bytes
    pub split : frames ≡ handled ++ coming
    pub remains : left ++ y ≡ stream written coming
    pub drained :
        drain next dispatch fuel s x
        ≡ some ((dispatch_all dispatch s handled).0, (dispatch_all dispatch s handled).1, left)
    pub waits : (dispatch_all dispatch s handled).0 ≡ ok tt → next left ≡ none

  drain-none :
      (fuel : ℕ) (s : S) (x : Bytes)
      → next x ≡ none
      → drain next dispatch (suc fuel) s x ≡ some (ok tt, s, x)
  unfolding drain
  drain-none fuel s x h = rw (h, drain)

  drain-ok :
      (fuel : ℕ) (s : S) (x rest : Bytes) (f : M)
      → next x ≡ some (f, rest)
      → (dispatch f s).0 ≡ ok tt
      → drain next dispatch (suc fuel) s x ≡ drain next dispatch fuel (dispatch f s).1 rest
  unfolding drain
  drain-ok fuel s x rest f h k = rw (h, k, drain)

  drain-raised :
      (fuel : ℕ) (s : S) (x rest : Bytes) (f : M) {e : Exn}
      → next x ≡ some (f, rest)
      → (dispatch f s).0 ≡ raised e
      → drain next dispatch (suc fuel) s x ≡ some (raised e, (dispatch f s).1, rest)
  unfolding drain
  drain-raised fuel s x rest f h k = rw (h, k, drain)

  -- Two readings of the first message of a stream agree.
  first_message :
      (x y rest : Bytes) (f' f : M) (fs : List M)
      → Fits f
      → x ++ y ≡ stream written (f ∷ fs)
      → next x ≡ some (f', rest)
      → (f' ≡ f) × (rest ++ y ≡ stream written fs)
  unfolding stream
  first_message x y rest f' f fs fits e h =
      let same : ◌≡◌ {A = Option (M × Bytes)} (some (f', rest ++ y)) (some (f, stream written fs)) =
        sym (reads.more x y rest f' h) ∙ ap next e ∙ reads.first f (stream written fs) fits in
      (cc, cc)

  empty_prefix : (x y : Bytes) → x ++ y ≡ [] → x ≡ []
  empty_prefix [] y h = refl
  empty_prefix (b ∷ x) y h = cc

  nothing_yet :
      (fuel : ℕ) (s : S) (x y : Bytes) (frames : List M)
      → x ++ y ≡ stream written frames
      → next x ≡ none
      → Progress (suc fuel) s x y frames
  unfolding dispatch_all
  nothing_yet fuel s x y frames e h = record {
    handled = [];
    coming = frames;
    left = x;
    split = refl;
    remains = e;
    drained = drain-none fuel s x h;
    waits = λ _. h;
  }

  pub drain-Progress :
      (frames : List M) (fuel : ℕ) (s : S) (x y : Bytes)
      → length frames < fuel
      → All Fits frames
      → x ++ y ≡ stream written frames
      → Progress fuel s x y frames
  drain-Progress frames zero s x y short fits e = absurd (omega arith)
  drain-Progress [] (suc fuel) s x y short fits e =
      nothing_yet fuel s x y [] e (rw (empty_prefix x y (e ∙ unfold stream in refl)) reads.empty)
  drain-Progress (f ∷ fs) (suc fuel) s x y short fits e = elim (Option-cases (next x)) [
    | inl h ↦ nothing_yet fuel s x y (f ∷ fs) e h
    | inr ((f', rest), h) ↦
        (let (same, e') = first_message x y rest f' f fs fits.0 e h in
          let h' : next x ≡ some (f, rest) = h ∙ ap (λ g. some (g, rest)) same in
          elim (Result-cases (dispatch f s).0) [
            | inr (x', k) ↦
                (let all : dispatch_all dispatch s (f ∷ []) ≡ (raised x', (dispatch f s).1) =
                    dispatch_all-cons_raised dispatch s f [] k in
                  record {
                    handled = f ∷ [];
                    coming = fs;
                    left = rest;
                    split = refl;
                    remains = e';
                    drained =
                        drain-raised fuel s x rest f h' k
                        ∙ ap (λ r. some (r.0, r.1, rest)) (sym all);
                    waits = λ good.
                        (let bad : raised x' ≡ ok tt = ap (λ r. r.0) (sym all) ∙ good in cc);
                  })
            | inl (_, k) ↦
                (let later =
                    drain-Progress fs fuel (dispatch f s).1 rest y (omega arith) fits.1 e' in
                  let all : dispatch_all dispatch s (f ∷ later.handled)
                      ≡ dispatch_all dispatch (dispatch f s).1 later.handled =
                    dispatch_all-cons dispatch s f later.handled k in
                  record {
                    handled = f ∷ later.handled;
                    coming = later.coming;
                    left = later.left;
                    split = ap (λ l. f ∷ l) later.split;
                    remains = later.remains;
                    drained =
                        drain-ok fuel s x rest f h' k
                        ∙ later.drained
                        ∙ ap (λ r. some (r.0, r.1, later.left)) (sym all);
                    waits = λ good. later.waits (ap (λ r. r.0) (sym all) ∙ good);
                  })
          ])
  ]
