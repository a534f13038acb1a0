-- ===== src/Framing/Wedge.antt =====
-- A message that takes nothing off the buffer.
use py_wayland_auto.Base.{ℕ, zero, suc, ◌≡◌, refl, Option, none, some, Bytes}
use py_wayland_auto.Outcome.{Result, ok}
use py_wayland_auto.Framing.{drain}

module _ {M S : Type 0} (next : Bytes → Option (M × Bytes))
    (dispatch : M → S → Result (Unit {0}) × S) (buf : Bytes) (m : M)
    (stays : next buf ≡ some (m, buf)) (calm : (s : S) → (dispatch m s).0 ≡ ok tt) where
  -- The loop is over after no number of rounds.
  pub drain_stuck : (fuel : ℕ) (s : S) → drain next dispatch fuel s buf ≡ none
  unfolding drain
  drain_stuck zero s = refl
  drain_stuck (suc fuel) s = rw (stays, calm s, drain) (drain_stuck fuel (dispatch m s).1)
