-- ===== src/Wire/CompactSize.antt =====
-- `write_compact_size` and `compact_size_encoded_len` of crates/bitrst-core/src/transaction.rs.
use bitrst.Base.{
  ℕ, ◌^◌, ◌%◌, ◌≡◌, List, [], ◌∷◌, ◌++◌, length, All, leb, if◌then◌else◌, append_assoc, arith,
}
use bitrst.Wire.Bytes.{IsByte, to_le_bytes, length-to_le_bytes, to_le_bytes-IsByte}

unfoldable pub compact_size_encoded_len : ℕ → ℕ
compact_size_encoded_len value =
    if leb value 0xfc
    then 1
    else (if leb value 0xffff then 3 else (if leb value 0xffff_ffff then 5 else 9))

-- `value as u8` and the like keep the low bits.
unfoldable pub write_compact_size : ℕ → List ℕ → List ℕ
write_compact_size value out =
    if leb value 0xfc
    then out ++ ((value % 2 ^ 8) ∷ [])
    else (if leb value 0xffff
        then (out ++ (0xfd ∷ [])) ++ to_le_bytes 2 (value % 2 ^ 16)
        else (if leb value 0xffff_ffff
            then (out ++ (0xfe ∷ [])) ++ to_le_bytes 4 (value % 2 ^ 32)
            else (out ++ (0xff ∷ [])) ++ to_le_bytes 8 value))

-- What is written, on its own.
unfoldable pub compact_size : ℕ → List ℕ
compact_size value = write_compact_size value []

pub write_compact_size-append :
    (value : ℕ) (out : List ℕ) → write_compact_size value out ≡ out ++ compact_size value
unfolding compact_size write_compact_size
write_compact_size-append value out = ground (
  arith,
  append_assoc out (0xfd ∷ []) (to_le_bytes 2 (value % 2 ^ 16)),
  append_assoc out (0xfe ∷ []) (to_le_bytes 4 (value % 2 ^ 32)),
  append_assoc out (0xff ∷ []) (to_le_bytes 8 value),
)

pub length-compact_size : (value : ℕ) → length (compact_size value) ≡ compact_size_encoded_len value
unfolding compact_size write_compact_size compact_size_encoded_len
length-compact_size value = ground (
  arith,
  length-to_le_bytes 2 (value % 2 ^ 16),
  length-to_le_bytes 4 (value % 2 ^ 32),
  length-to_le_bytes 8 value,
)

pub compact_size-IsByte : (value : ℕ) → All IsByte (compact_size value)
unfolding compact_size write_compact_size
compact_size-IsByte value = ground (
  arith,
  to_le_bytes-IsByte 2 (value % 2 ^ 16),
  to_le_bytes-IsByte 4 (value % 2 ^ 32),
  to_le_bytes-IsByte 8 value,
)
