-- ===== src/Tests/Work.antt =====
-- The target of the compact bits 0x1b0404cb, and what the arithmetic makes of it.
use bitrst.Base.{
  ℕ, ◌+◌, ◌*◌, ◌/◌, ◌%◌, ◌^◌, ◌<◌, ◌≤◌, ◌≡◌, ◌↔◌, refl, List, [], ◌∷◌, ◌++◌, replicate, some, true,
  arith,
}
use bitrst.Wire.Bytes.{IsArray, from_le_bytes}
use bitrst.Work.Uint256.{add_u256_le, div_u256_le, sub_u256_le, work_from_target, cmp_le}
use bitrst.Work.Compare.{order, cmp_le-order}
use bitrst.Work.Arithmetic.{sub_u256_le-lost_borrow}
use bitrst.Work.Scaling.{mul_div_threshold-eq}
use bitrst.Work.Difficulty.{mul_div_threshold}
use bitrst.Work.Division.{div_u256_le-eq, work_from_target-eq}
use bitrst.Work.Target.{from_bits, meets}
use bitrst.Work.Compact.{Encodes, compact_value, from_bits-eq, meets_iff}
use bitrst.Work.Difficulty.{max_target, max_compact_bits}

abbrev bits : ℕ
bits = 0x1b04_04cb

abbrev threshold : List ℕ
threshold = replicate 24 0 ++ (0xcb ∷ 4 ∷ 4 ∷ 0 ∷ 0 ∷ 0 ∷ 0 ∷ 0 ∷ [])

abbrev plus_one : List ℕ
plus_one = 1 ∷ replicate 23 0 ++ (0xcb ∷ 4 ∷ 4 ∷ 0 ∷ 0 ∷ 0 ∷ 0 ∷ 0 ∷ [])

bits_decode : from_bits bits ≡ some (record { threshold = threshold })
unfolding from_bits bitrst.Wire.Bytes.to_le_bytes
bits_decode = refl

max_decodes : from_bits max_compact_bits ≡ some (record { threshold = max_target })
unfolding from_bits max_target bitrst.Wire.Bytes.to_le_bytes
max_decodes = refl

threshold-IsArray : IsArray 32 threshold
threshold-IsArray = record { size = refl; bytes = omega arith }

plus_one-IsArray : IsArray 32 plus_one
plus_one-IsArray = record { size = refl; bytes = omega arith }

from_bits-eq_example :
    (0 < bits % 2 ^ 23)
    × (bits / 2 ^ 23 % 2 ≡ 0)
    × Encodes (compact_value bits) (record { threshold = threshold })
from_bits-eq_example = from_bits-eq bits (record { threshold = threshold }) bits_decode

meets_iff_example :
    (meets (record { threshold = threshold }) plus_one ≡ true)
    ↔ (from_le_bytes plus_one ≤ from_le_bytes threshold)
meets_iff_example =
    meets_iff (record { threshold = threshold }) plus_one threshold-IsArray plus_one-IsArray

threshold_plus_one : add_u256_le threshold 1 ≡ some plus_one
unfolding add_u256_le
threshold_plus_one = refl

threshold_small : (0 < from_le_bytes threshold) × (from_le_bytes threshold < 2 ^ 255)
unfolding from_le_bytes
threshold_small = omega arith

work_from_target-eq_example :
    (work : List ℕ) × (work_from_target threshold ≡ some work)
    × (from_le_bytes work ≡ 2 ^ 256 / (from_le_bytes threshold + 1))
    × IsArray 32 work
work_from_target-eq_example =
    work_from_target-eq threshold plus_one threshold-IsArray threshold_plus_one (omega arith)
      threshold_small.0 threshold_small.1

div_u256_le-eq_example :
    (quotient : List ℕ) × (div_u256_le plus_one threshold ≡ some quotient)
    × (from_le_bytes quotient ≡ from_le_bytes plus_one / from_le_bytes threshold)
    × IsArray 32 quotient
div_u256_le-eq_example =
    div_u256_le-eq plus_one threshold plus_one-IsArray threshold-IsArray (omega arith)
      threshold_small.0 (let h = threshold_small.1 in omega arith)

cmp_le-order_example :
    cmp_le threshold plus_one ≡ order (from_le_bytes threshold) (from_le_bytes plus_one)
cmp_le-order_example = cmp_le-order threshold plus_one refl (omega arith) (omega arith)

zero_le_one : from_le_bytes (0 ∷ []) ≤ from_le_bytes (1 ∷ [])
unfolding from_le_bytes
zero_le_one = omega arith

sub_u256_le-lost_borrow_example :
    (out : List ℕ) × (sub_u256_le (0 ∷ 0 ∷ 1 ∷ []) (1 ∷ 255 ∷ 0 ∷ []) ≡ some out)
    × (from_le_bytes out + from_le_bytes (1 ∷ 255 ∷ 0 ∷ [])
        ≡ from_le_bytes (0 ∷ 0 ∷ 1 ∷ []) + 2 ^ 16)
sub_u256_le-lost_borrow_example =
    sub_u256_le-lost_borrow 0 0 1 (1 ∷ []) (0 ∷ []) refl (omega arith) (omega arith) (omega arith)
      zero_le_one

threshold_value : from_le_bytes threshold * 600 < 2 ^ 256 * 1_209_600
unfolding from_le_bytes
threshold_value = omega arith

mul_div_threshold-eq_example :
    (scaled : List ℕ) × (mul_div_threshold threshold 600 1_209_600 ≡ some scaled)
    × (from_le_bytes scaled ≡ from_le_bytes threshold * 600 / 1_209_600)
mul_div_threshold-eq_example =
    mul_div_threshold-eq threshold 600 1_209_600 threshold-IsArray (omega arith) (omega arith)
      (omega arith) threshold_value
