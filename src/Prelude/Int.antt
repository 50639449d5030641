-- ===== src/Prelude/Int.antt =====
-- `int` values that may be negative. Their width is left out: no modelled sum of them can overflow.
use Prim.Native.Nat.{ℕ, suc, ◌-◌, ◌^◌}
use mathlib.Core.Bool.{Bool, true, false}
use mongrel.Prelude.Tests.{ltb, if◌then◌else◌}

-- `negsuc n` is -(n + 1).
pub data ℤ : Type 0 where
  pos : ℕ → ℤ
  negsuc : ℕ → ℤ

abbrev pub minus_one : ℤ
minus_one = negsuc 0

-- `0 < a`
abbrev pub is_positive : ℤ → Bool
is_positive (pos (suc n)) = true
is_positive _ = false

abbrev pub pos_part : ℤ → ℕ
pos_part (pos n) = n
pos_part (negsuc n) = 0

-- `n++` and `n--` of an `int`
abbrev pub succ_ℤ : ℤ → ℤ
succ_ℤ (pos n) = pos (suc n)
succ_ℤ (negsuc (suc n)) = negsuc n
succ_ℤ (negsuc _) = pos 0

abbrev pub pred_ℤ : ℤ → ℤ
pred_ℤ (pos (suc n)) = pos n
pred_ℤ (pos _) = minus_one
pred_ℤ (negsuc n) = negsuc (suc n)

-- a `uint32_t` returned as an `int`
abbrev pub int_of_uint32 : ℕ → ℤ
int_of_uint32 n = if ltb n (2 ^ 31) then pos n else negsuc (2 ^ 32 - n - 1)
