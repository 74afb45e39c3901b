-- ===== src/Prelude/Int.antt =====
-- Go's `int` and `int64`, as far as the program compares them with 0.
use Prim.Native.Nat.{ℕ, zero, suc}
use mathlib.Core.Bool.{Bool, false}
use ai_agent_cloud_runtime.Prelude.Tests.{◌==◌, if◌then◌else◌}

-- `negsuc n` is -(n + 1).
pub data ℤ : Type 0 where
  pos : ℕ → ℤ
  negsuc : ℕ → ℤ

-- `if x <= 0 { x = d }`
unfoldable pub default_pos : ℤ → ℕ → ℕ
default_pos (pos n) d = if n == 0 then d else n
default_pos (negsuc n) d = d

-- `max(x, 0)`, and `if x < 0 { x = 0 }`
unfoldable pub clamp_zero : ℤ → ℕ
clamp_zero (pos n) = n
clamp_zero (negsuc n) = 0

-- `x--`
unfoldable pub decrement : ℤ → ℤ
decrement (pos zero) = negsuc 0
decrement (pos (suc n)) = pos n
decrement (negsuc n) = negsuc (suc n)

-- `x == 0`
unfoldable pub is_zero : ℤ → Bool
is_zero (pos n) = n == 0
is_zero (negsuc n) = false
