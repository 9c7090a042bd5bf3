-- ===== src/Common/Int.antt =====
-- Signed integers over the native numbers, and Go's 64-bit wrap-around.
use Prim.Native.Nat.{ℕ, suc, ◌+◌, ◌-◌, ◌*◌, ◌%◌, ◌<◌}
use mathlib.Core.Path.{◌≡◌}
use mathlib.Core.Bool.{Bool, true, false}
use native.Mathlib.Omega.{arith}
use routing_slip_pattern.Common.Tests.{ltb, if◌then◌else◌}

-- `negsuc n` is -(n + 1).
pub data ℤ : Type 0 where
  pos : ℕ → ℤ
  negsuc : ℕ → ℤ

-- a < b.
abbrev pub lt_int : ℤ → ℤ → Bool
lt_int (pos a) (pos b) = ltb a b
lt_int (pos a) (negsuc b) = false
lt_int (negsuc a) (pos b) = true
lt_int (negsuc a) (negsuc b) = ltb b a

-- 0 < a.
abbrev pub is_positive : ℤ → Bool
is_positive (pos a) = ltb 0 a
is_positive (negsuc a) = false

-- The integer as a natural number, negative ones as 0.
abbrev pub pos_part : ℤ → ℕ
pos_part (pos n) = n
pos_part (negsuc n) = 0

-- The int64 with the bit pattern `n % 2 ^ 64`.
unfoldable pub signed64 : ℕ → ℤ
signed64 n =
    let r = n % 18446744073709551616 in
    if ltb r 9223372036854775808 then pos r else negsuc (18446744073709551615 - r)

-- a * k as an int64.
unfoldable pub scale64 : ℤ → ℕ → ℤ
unfolding signed64
scale64 (pos a) k = signed64 (a * k)
scale64 (negsuc a) k = signed64 (18446744073709551616 - suc a * k % 18446744073709551616)

-- a + k as an int64.
unfoldable pub add64 : ℤ → ℕ → ℤ
unfolding signed64
add64 (pos a) k = signed64 (a + k)
add64 (negsuc a) k = signed64 (18446744073709551616 - suc a % 18446744073709551616 + k)

-- A product that fits does not wrap.
pub scale64_fits : (a k : ℕ) → a * k < 9223372036854775808 → scale64 (pos a) k ≡ pos (a * k)
unfolding scale64
scale64_fits a k h = ground arith

pub add64_fits : (a k : ℕ) → a + k < 9223372036854775808 → add64 (pos a) k ≡ pos (a + k)
unfolding add64
add64_fits a k h = ground arith
