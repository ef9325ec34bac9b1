-- ===== src/Go/Int.antt =====
-- Signed integers over the native numbers: `int` and `int32` values, and their decimal print.
use network_controller.Common.{ℕ, zero, suc, ◌+◌, ◌-◌, ◌^◌, ◌∷◌, ◌==◌, if◌then◌else◌}
use network_controller.Go.Text.{Bytes, uitoa}

-- `negsuc n` is -(n + 1).
pub data ℤ : Type 0 where
  pos : ℕ → ℤ
  negsuc : ℕ → ℤ

-- `x + 1` in a signed type whose largest value is `top`: behind it comes the smallest one.
unfoldable pub increment : ℕ → ℤ → ℤ
increment top (pos n) = if n == top then negsuc top else pos (n + 1)
increment top (negsuc zero) = pos 0
increment top (negsuc (suc n)) = negsuc n

abbrev pub max_int32 : ℕ
max_int32 = 2 ^ 31 - 1

abbrev pub max_int64 : ℕ
max_int64 = 2 ^ 63 - 1

-- `fmt.Sprint` of an int
unfoldable pub sprint : ℤ → Bytes
sprint (pos n) = uitoa n
sprint (negsuc n) = b'-' ∷ uitoa (n + 1)
