-- ===== src/Base/Int.antt =====
-- Rust's `i32` and `i64` as integers, with the two's-complement pattern that their bytes hold.
use bitrst.Base.Tests.{ltb, if◌then◌else◌}
use Prim.Native.Nat.{ℕ, ◌-◌, ◌%◌, ◌^◌, ◌<◌}
use mathlib.Core.Path.{◌≡◌}
use native.Mathlib.Omega.{arith}

-- `negsuc n` is -(n + 1).
pub data ℤ : Type 0 where
  pos : ℕ → ℤ
  negsuc : ℕ → ℤ

abbrev pub IsI32 : ℤ → Type 0
IsI32 (pos n) = n < 2 ^ 31
IsI32 (negsuc n) = n < 2 ^ 31

-- The 32-bit pattern of an integer.
unfoldable pub i32_bits : ℤ → ℕ
i32_bits (pos n) = n % 2 ^ 32
i32_bits (negsuc n) = 2 ^ 32 - n % 2 ^ 32 - 1

-- The integer that a 32-bit pattern stands for.
unfoldable pub i32_of_bits : ℕ → ℤ
i32_of_bits w = if ltb w (2 ^ 31) then pos w else negsuc (2 ^ 32 - w - 1)

pub i32_bits-lt : (z : ℤ) → i32_bits z < 2 ^ 32
unfolding i32_bits
i32_bits-lt (pos n) = omega arith
i32_bits-lt (negsuc n) = omega arith

pub i32_of_bits-i32_bits : (z : ℤ) → IsI32 z → i32_of_bits (i32_bits z) ≡ z
unfolding i32_bits i32_of_bits
i32_of_bits-i32_bits (pos n) h = ground arith
i32_of_bits-i32_bits (negsuc n) h = ground arith

pub i32_bits-i32_of_bits : (w : ℕ) → w < 2 ^ 32 → i32_bits (i32_of_bits w) ≡ w
unfolding i32_bits i32_of_bits
i32_bits-i32_of_bits w h = ground arith

pub i32_of_bits-IsI32 : (w : ℕ) → w < 2 ^ 32 → IsI32 (i32_of_bits w)
unfolding i32_of_bits
i32_of_bits-IsI32 w h = ground arith

abbrev pub IsI64 : ℤ → Type 0
IsI64 (pos n) = n < 2 ^ 63
IsI64 (negsuc n) = n < 2 ^ 63

unfoldable pub i64_bits : ℤ → ℕ
i64_bits (pos n) = n % 2 ^ 64
i64_bits (negsuc n) = 2 ^ 64 - n % 2 ^ 64 - 1

unfoldable pub i64_of_bits : ℕ → ℤ
i64_of_bits w = if ltb w (2 ^ 63) then pos w else negsuc (2 ^ 64 - w - 1)

pub i64_bits-lt : (z : ℤ) → i64_bits z < 2 ^ 64
unfolding i64_bits
i64_bits-lt (pos n) = omega arith
i64_bits-lt (negsuc n) = omega arith

pub i64_of_bits-i64_bits : (z : ℤ) → IsI64 z → i64_of_bits (i64_bits z) ≡ z
unfolding i64_bits i64_of_bits
i64_of_bits-i64_bits (pos n) h = ground arith
i64_of_bits-i64_bits (negsuc n) h = ground arith
