-- ===== src/Work/Target.antt =====
-- crates/bitrst-core/src/pow.rs
use bitrst.Base.{
  ℕ, suc, ◌+◌, ◌-◌, ◌*◌, ◌/◌, ◌%◌, ◌^◌, List, [], ◌∷◌, ◌++◌, take, replicate, Option, none, some,
  Bool, not, ◌||◌, ltb, leb, ◌==◌, if◌then◌else◌,
}
use bitrst.Base.Options.{◌>>=◌}
use bitrst.Wire.Bytes.{to_le_bytes, from_le_bytes}
use bitrst.Work.Uint256.{Ordering, cmp_le, is_greater, byte_at, work_from_target}

pub record Target : Type 0 where
  pub threshold : List ℕ

unfoldable pub from_threshold : List ℕ → Target
from_threshold threshold = record { threshold = threshold }

-- `[0u8; 32]` with the three low bytes of `value` from `offset` on.
abbrev pub placed : ℕ → ℕ → List ℕ
placed offset value = replicate offset 0 ++ (to_le_bytes 3 value ++ replicate (29 - offset) 0)

unfoldable pub from_bits : ℕ → Option Target
from_bits bits =
    let exponent = bits / 2 ^ 24 in
    let mantissa = bits % 2 ^ 23 in
    if mantissa == 0 || bits / 2 ^ 23 % 2 == 1
    then none
    else (if leb exponent 3
        then some (record { threshold = placed 0 (mantissa / 2 ^ (8 * (3 - exponent))) })
        else (if ltb 32 (exponent - 3 + 3)
            then none
            else some (record { threshold = placed (exponent - 3) mantissa })))

unfoldable pub easy : Target
easy = record { threshold = replicate 32 0xff }

-- `compare_internal_hash` is `cmp_le` under another name.
unfoldable pub compare_internal_hash : List ℕ → List ℕ → Ordering
unfolding cmp_le
compare_internal_hash left right = cmp_le left right

unfoldable pub meets : Target → List ℕ → Bool
meets target hash = not (is_greater (compare_internal_hash hash target.threshold))

unfoldable pub to_work : Target → Option (List ℕ)
to_work target = work_from_target target.threshold

abbrev pub or_lowest : ℕ → Option ℕ → Option ℕ
or_lowest byte none = if byte == 0 then none else some 1
or_lowest byte (some size) = some (suc size)

-- One more than the index of the highest byte that is not zero.
unfoldable pub significant_size : List ℕ → Option ℕ
significant_size [] = none
significant_size (byte ∷ bytes) = or_lowest byte (significant_size bytes)

-- The three highest of `size` bytes, as a number; bytes below the lowest count as zero.
unfoldable pub leading_bytes : List ℕ → ℕ → ℕ
leading_bytes threshold size =
    if leb size 3
    then from_le_bytes (take size threshold) * 2 ^ (8 * (3 - size)) % 2 ^ 32
    else byte_at threshold (size - 3)
      + byte_at threshold (size - 3 + 1) * 2 ^ 8
      + byte_at threshold (size - 3 + 2) * 2 ^ 16

-- `mantissa & 0x0080_0000 != 0` shifts the mantissa and counts the exponent up.
abbrev pub normalize : ℕ × ℕ → ℕ × ℕ
normalize (mantissa, size) =
    if mantissa / 2 ^ 23 % 2 == 1 then (mantissa / 2 ^ 8, size + 1) else (mantissa, size)

abbrev pub join_bits : ℕ × ℕ → Option ℕ
join_bits (mantissa, size) =
    if ltb 0x007f_ffff mantissa then none else some (size * 2 ^ 24 + mantissa)

unfoldable pub to_bits : Target → Option ℕ
to_bits target = do
  size ← significant_size target.threshold
  join_bits (normalize (leading_bytes target.threshold size, size))
