-- ===== src/Base/Int.antt =====
-- Python's unbounded signed integers over the native numbers.
use Prim.Native.Nat.{ℕ}
use mathlib.Core.Bool.{Bool, true, false}
use py_wayland_auto.Base.Tests.{◌==◌}

-- `negsuc n` is -(n + 1).
pub data ℤ : Type 0 where
  pos : ℕ → ℤ
  negsuc : ℕ → ℤ

-- `bool(n)`
abbrev pub nonzero : ℤ → Bool
nonzero (pos n) = elim (n == 0) [ true ↦ false | false ↦ true ]
nonzero (negsuc n) = true
