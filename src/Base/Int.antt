-- ===== src/Base/Int.antt =====
-- Integers, for `time.Duration`. `negsuc n` is -(n + 1).
use Prim.Native.Nat.{ℕ, ◌-◌}
use dynamic_modules_examples.Base.{Bool, false, ◌≡◌, arith}
use dynamic_modules_examples.Base.Tests.{leb, ltb, if◌then◌else◌}

pub data ℤ : Type 0 where
  pos : ℕ → ℤ
  negsuc : ℕ → ℤ

-- a - b, as an integer.
abbrev pub sub_ℕ : ℕ → ℕ → ℤ
sub_ℕ a b = if leb b a then pos (a - b) else negsuc (b - a - 1)

-- 0 < d
abbrev pub is_positive : ℤ → Bool
is_positive (pos n) = ltb 0 n
is_positive (negsuc n) = false

-- A difference is positive exactly if it goes up.
pub sub_ℕ-is_positive : (a b : ℕ) → is_positive (sub_ℕ a b) ≡ ltb b a
sub_ℕ-is_positive a b = ground arith
