-- ===== src/Work/Difficulty.antt =====
-- crates/bitrst-core/src/difficulty.rs and time.rs
use bitrst.Base.{
  ℕ, suc, ◌+◌, ◌-◌, ◌*◌, ◌/◌, ◌%◌, ◌^◌, List, [], ◌∷◌, ◌++◌, Option, none, some, Bool, ◌&&◌, ltb,
  leb, ◌==◌, if◌then◌else◌, Result, ok_or, ◌>>=◌,
}
use bitrst.Base.Options
use bitrst.Wire.Bytes.{to_le_bytes}
use bitrst.Work.Uint256.{cmp_le, is_greater}
use bitrst.Work.Target.{Target, from_threshold, from_bits, to_bits}

abbrev pub difficulty_adjustment_interval : ℕ
difficulty_adjustment_interval = 2016

abbrev pub target_block_spacing : ℕ
target_block_spacing = 600

abbrev pub target_timespan : ℕ
target_timespan = difficulty_adjustment_interval * target_block_spacing

abbrev pub max_compact_bits : ℕ
max_compact_bits = 0x1d00_ffff

abbrev pub max_future_block_time : ℕ
max_future_block_time = 2 * 60 * 60

pub data DifficultyError : Type 0 where
  invalid_previous_bits : ℕ → DifficultyError
  encoding_failed : DifficultyError
  overflow : DifficultyError

-- `u32::saturating_mul` and `u32::saturating_add`
abbrev pub saturate_u32 : ℕ → ℕ
saturate_u32 n = if ltb n (2 ^ 32) then n else 2 ^ 32 - 1

unfoldable pub clamp_timespan : ℕ → ℕ → ℕ
clamp_timespan actual target =
    let minimum = target / 4 in
    let maximum = saturate_u32 (target * 4) in
    if ltb actual minimum then minimum else (if ltb maximum actual then maximum else actual)

abbrev pub extend : ℕ → Option (List ℕ × ℕ) → Option (List ℕ × ℕ)
extend byte none = none
extend byte (some (bytes, carry)) = some (byte ∷ bytes, carry)

-- The loop over the bytes of the threshold: the product's bytes, and what is carried out of
-- them. `checked_mul` and `checked_add` fail from 2^64 on.
unfoldable pub mul_loop : ℕ → List ℕ → ℕ → Option (List ℕ × ℕ)
mul_loop numerator [] carry = some ([], carry)
mul_loop numerator (byte ∷ bytes) carry =
    let scaled = byte * numerator + carry in
    let rest = mul_loop numerator bytes (scaled / 256) in
    if ltb scaled (2 ^ 64) then extend (scaled % 256) rest else none

-- The four bytes behind the threshold take the carry; `none` if it is longer.
abbrev pub carry_bytes : List ℕ × ℕ → Option (List ℕ)
carry_bytes (bytes, carry) =
    if ltb carry (2 ^ 32) then some (bytes ++ to_le_bytes 4 carry) else none

-- One round of the division for the byte at `index`, given the quotient's bytes above it and the
-- remainder: a byte of the quotient that 32 bytes have no room for has to be zero.
abbrev pub div_round : ℕ → ℕ → ℕ → Option (List ℕ × ℕ) → Option (List ℕ × ℕ)
div_round divisor index byte none = none
div_round divisor index byte (some (above, remainder)) =
    let accumulator = remainder * 256 + byte in
    if ltb accumulator (2 ^ 64)
    then (if leb 32 index
        then (if accumulator / divisor == 0 then some ([], accumulator % divisor) else none)
        else some ((accumulator / divisor % 256) ∷ above, accumulator % divisor))
    else none

-- `for index in (0..input.len()).rev()`: the bytes from `index` on come first.
unfoldable pub div_from : ℕ → ℕ → List ℕ → Option (List ℕ × ℕ)
div_from divisor index [] = some ([], 0)
div_from divisor index (byte ∷ bytes) =
    div_round divisor index byte (div_from divisor (suc index) bytes)

abbrev pub quotient_of : Option (List ℕ × ℕ) → Option (List ℕ)
quotient_of none = none
quotient_of (some (quotient, remainder)) = some quotient

-- Of an input of 32 bytes or more; the output has 32.
unfoldable pub div_le_by_u64 : List ℕ → ℕ → Option (List ℕ)
div_le_by_u64 input divisor = if divisor == 0 then none else quotient_of (div_from divisor 0 input)

unfoldable pub mul_div_threshold : List ℕ → ℕ → ℕ → Option (List ℕ)
mul_div_threshold threshold numerator denominator =
    if denominator == 0
    then none
    else Options.◌>>=◌ (mul_loop numerator threshold 0)
        (λ product. Options.◌>>=◌ (carry_bytes product) (λ input. div_le_by_u64 input denominator))

-- `expect` cannot fail: the constant decodes.
abbrev pub expected : Option Target → List ℕ
expected none = []
expected (some target) = target.threshold

unfoldable pub max_target : List ℕ
max_target = expected (from_bits max_compact_bits)

unfoldable pub cap_to_max_target : List ℕ → List ℕ
cap_to_max_target threshold =
    if is_greater (cmp_le threshold max_target) then max_target else threshold

unfoldable pub adjust_bits : ℕ → ℕ → Result DifficultyError ℕ
adjust_bits prev_bits actual_timespan = do
  prev_target ← ok_or (from_bits prev_bits) (invalid_previous_bits prev_bits)
  scaled ←
      ok_or
        (mul_div_threshold prev_target.threshold (clamp_timespan actual_timespan target_timespan)
          target_timespan)
        overflow
  ok_or (to_bits (from_threshold (cap_to_max_target scaled))) encoding_failed

-- crates/bitrst-core/src/time.rs
unfoldable pub valid_block_time : ℕ → ℕ → ℕ → Bool
valid_block_time block_time median_past_time network_time =
    ltb median_past_time block_time
    && leb block_time (saturate_u32 (network_time + max_future_block_time))
