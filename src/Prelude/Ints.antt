-- ===== src/Prelude/Ints.antt =====
-- Signed integers over the native numbers, under the library's names, and the casts to int32.
use Prim.Native.Nat.{ℕ, ◌-◌, ◌%◌, ◌^◌, ◌<◌}
use mathlib.Core.Path.{◌≡◌}
use native.Mathlib.Omega.{arith}
use alibabacloud_erdma_contr.Prelude.Tests.{ltb, if◌then◌else◌}

-- `negsuc n` is -(n + 1).
pub data ℤ : Type 0 where
  pos : ℕ → ℤ
  negsuc : ℕ → ℤ

-- The int32 whose bit pattern is `r`, for r < 2^32.
abbrev pub from_bits : ℕ → ℤ
from_bits r = if ltb r (2 ^ 31) then pos r else negsuc (2 ^ 32 - 1 - r)

-- Go's conversion `int32(x)`.
unfoldable pub int32 : ℤ → ℤ
int32 (pos n) = from_bits (n % 2 ^ 32)
int32 (negsuc n) = from_bits (2 ^ 32 - 1 - n % 2 ^ 32)

-- The conversion keeps a number that fits.
pub int32-pos : (n : ℕ) → n < 2 ^ 31 → int32 (pos n) ≡ pos n
unfolding int32
int32-pos n h = ground arith
