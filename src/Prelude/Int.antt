-- ===== src/Prelude/Int.antt =====
-- Python's `int` as the difference of two native numbers.
use Prim.Native.Nat.{ℕ, ◌+◌, ◌-◌}
use mathlib.Core.Path.{◌≡◌}
use native.Mathlib.Omega.{arith}
use atlasmirror.Prelude.Tests.{leb, if◌then◌else◌}

-- `negsuc n` is -(n + 1).
pub data ℤ : Type 0 where
  pos : ℕ → ℤ
  negsuc : ℕ → ℤ

-- a - b, as an integer.
abbrev pub sub_ℕ : ℕ → ℕ → ℤ
sub_ℕ a b = if leb b a then pos (a - b) else negsuc (b - a - 1)

-- Both sides may be moved by the same number.
pub sub_ℕ-add : (a b k : ℕ) → sub_ℕ (a + k) (b + k) ≡ sub_ℕ a b
sub_ℕ-add a b k = ground arith
