-- ===== src/Common/Int.antt =====
-- Signed integers: the values of `int64_t` and of `std::chrono::milliseconds`.
use Prim.Native.Nat.{ℕ, zero, suc, ◌-◌, ◌^◌}
use mathlib.Core.Bool.{Bool, true, false}

-- `negsuc n` is -(n + 1).
pub data ℤ : Type 0 where
  pos : ℕ → ℤ
  negsuc : ℕ → ℤ

-- `x > 0`
abbrev pub is_positive : ℤ → Bool
is_positive (pos zero) = false
is_positive (pos (suc n)) = true
is_positive (negsuc n) = false

-- `std::numeric_limits<int64_t>::max()`
abbrev pub int64_max : ℤ
int64_max = pos (2 ^ 63 - 1)
