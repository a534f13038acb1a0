-- ===== src/Framing/Kept.antt =====
-- What every dispatched message keeps, the loop keeps.
use py_wayland_auto.Base.{ℕ, zero, suc, inl, inr, Option, none, some, Option-cases, Bytes}
use py_wayland_auto.Outcome.{Result, Result-cases}
use py_wayland_auto.Framing.{drain}

-- What holds of the state, where there is an end.
abbrev pub AtEnd : {S : Type 0} → (S → Type 0) → Option (Result (Unit {0}) × S × Bytes) → Type 0
AtEnd P none = Unit
AtEnd P (some (r, s, buf)) = P s

module _ {M S : Type 0} (next : Bytes → Option (M × Bytes))
    (dispatch : M → S → Result (Unit {0}) × S) (P : S → Type 0)
    (keep : (f : M) (s : S) → P s → P (dispatch f s).1) where
  pub drain-AtEnd :
      (fuel : ℕ) (s : S) (buf : Bytes) → P s → AtEnd P (drain next dispatch fuel s buf)
  unfolding drain
  drain-AtEnd zero s buf p = tt
  drain-AtEnd (suc fuel) s buf p = elim (Option-cases (next buf)) [
    | inl e ↦ rw (e, drain) p
    | inr ((f, rest), e) ↦ elim (Result-cases (dispatch f s).0) [
      | inl (u, k) ↦ rw (e, k, drain) (drain-AtEnd fuel (dispatch f s).1 rest (keep f s p))
      | inr (x, k) ↦ rw (e, k, drain) (keep f s p)
    ]
  ]
