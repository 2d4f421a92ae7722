-- ===== src/Prelude/Ints.antt =====
-- Signed machine integers over the native numbers.
use Prim.Native.Nat.{ℕ, ◌-◌, ◌%◌, ◌^◌}
use mathlib.Core.Path.{◌≡◌}
use mathlib.Core.Logic.{◌↔◌}
use native.Mathlib.Omega.{arith}
use mathlib.Core.Bool.{Bool, true, false}
use android_system_iorap.Prelude.Tests.{ltb, ◌==◌, if◌then◌else◌}

-- `negsuc n` is -(n + 1).
pub data ℤ : Type 0 where
  pos : ℕ → ℤ
  negsuc : ℕ → ℤ

abbrev pub is_negative : ℤ → Bool
is_negative (pos n) = false
is_negative (negsuc n) = true

-- A bit pattern of 32 bits, read as an int.
abbrev pub as_int : ℕ → ℤ
as_int m = if ltb m (2 ^ 31) then pos m else negsuc (2 ^ 32 - 1 - m)

-- The conversion of an int64_t to an int.
unfoldable pub to_int : ℤ → ℤ
to_int (pos n) = as_int (n % 2 ^ 32)
to_int (negsuc n) = as_int (2 ^ 32 - 1 - n % 2 ^ 32)

abbrev pub same_int : ℤ → ℤ → Bool
same_int (pos m) (pos n) = m == n
same_int (pos m) (negsuc n) = false
same_int (negsuc m) (pos n) = false
same_int (negsuc m) (negsuc n) = m == n

pub same_int_iff : (a b : ℤ) → (same_int a b ≡ true) ↔ (a ≡ b)
same_int_iff (pos m) (pos n) = ground arith
same_int_iff (pos m) (negsuc n) = ground arith
same_int_iff (negsuc m) (pos n) = ground arith
same_int_iff (negsuc m) (negsuc n) = ground arith

-- A bit pattern of 64 bits, read as an int64_t.
abbrev pub as_int64 : ℕ → ℤ
as_int64 m = if ltb m (2 ^ 63) then pos m else negsuc (2 ^ 64 - 1 - m)
