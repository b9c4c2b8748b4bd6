-- ===== src/Common/Int.antt =====
-- 64-bit signed columns. `negsuc n` is -(n + 1).
use Prim.Native.Nat.{ℕ, ◌-◌, ◌%◌, ◌^◌, ◌<◌}
use mathlib.Core.Path.{◌≡◌}
use native.Mathlib.Omega.{arith}
use lore_stack.Common.Tests.{ltb, if◌then◌else◌}

pub data ℤ : Type 0 where
  pos : ℕ → ℤ
  negsuc : ℕ → ℤ

-- `x as i64` of a `u64`: the upper half of the range is negative.
abbrev pub u64_as_i64 : ℕ → ℤ
u64_as_i64 n = if ltb n (2 ^ 63) then pos n else negsuc (2 ^ 64 - n - 1)

-- `x as u64` of an `i64`.
abbrev pub i64_as_u64 : ℤ → ℕ
i64_as_u64 (pos n) = n % 2 ^ 64
i64_as_u64 (negsuc n) = (2 ^ 64 - 1) - n % 2 ^ 64

-- `x as u32` of an `i64`: the low 32 bits.
abbrev pub i64_as_u32 : ℤ → ℕ
i64_as_u32 z = i64_as_u64 z % 2 ^ 32

-- A `u64` comes back from a BIGINT column as it went in, whatever its size.
pub i64_as_u64-u64_as_i64 : (n : ℕ) → n < 2 ^ 64 → i64_as_u64 (u64_as_i64 n) ≡ n
i64_as_u64-u64_as_i64 n h = ground arith
