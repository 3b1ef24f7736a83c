-- ===== src/Base/Int.antt =====
-- C++ integers with a sign, and the conversion to `int`.
use Prim.Native.Nat.{ℕ, ◌+◌, ◌-◌, ◌%◌, ◌^◌}
use mathlib.Core.Bool.{Bool, false}
use arango_cpp.Base.Tests.{ltb, ◌==◌, if◌then◌else◌}

-- `negsuc n` is -(n + 1).
pub data ℤ : Type 0 where
  pos : ℕ → ℤ
  negsuc : ℕ → ℤ

unfoldable pub int_eq : ℤ → ℤ → Bool
int_eq (pos a) (pos b) = a == b
int_eq (pos a) (negsuc b) = false
int_eq (negsuc a) (pos b) = false
int_eq (negsuc a) (negsuc b) = a == b

-- A remainder modulo 2^32 read as an `int`.
signed32 : ℕ → ℤ
signed32 r = if ltb r (2 ^ 31) then pos r else negsuc (2 ^ 32 - r - 1)

-- The conversion of an `int64_t` to `int`: modulo 2^32.
unfoldable pub to_int : ℤ → ℤ
unfolding signed32
to_int (pos n) = signed32 (n % 2 ^ 32)
to_int (negsuc n) = signed32 (2 ^ 32 - 1 - n % 2 ^ 32)

-- `2 * b`, for a value whose double is an `int`.
unfoldable pub twice : ℤ → ℤ
twice (pos n) = pos (n + n)
twice (negsuc n) = negsuc (n + n + 1)
