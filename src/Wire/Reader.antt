-- ===== src/Wire/Reader.antt =====
-- `DecodeError` and `WireReader` of crates/bitrst-core/src/wire.rs.
-- A decoder is a function of the reader. An error drops the reader: every caller in the source
-- leaves by `?` and reads no more from it.
use bitrst.Base.{
  ℕ, ◌+◌, ◌-◌, String, List, [], ◌∷◌, length, take, drop, ltb, leb, ◌==◌, if◌then◌else◌, Result, ok,
  err,
}
use bitrst.Base.Int.{ℤ, i32_of_bits}
use bitrst.Wire.Bytes.{from_le_bytes}

pub data DecodeError : Type 0 where
  -- context, needed, remaining
  truncated : String → ℕ → ℕ → DecodeError
  -- context, value
  non_canonical_compact_size : String → ℕ → DecodeError
  -- context, actual, limit
  limit_exceeded : String → ℕ → ℕ → DecodeError
  -- context, remaining
  trailing_bytes : String → ℕ → DecodeError

pub record WireReader : Type 0 where
  pub bytes : List ℕ
  pub position : ℕ

abbrev pub Decoder : Type 0 → Type 0
Decoder A = WireReader → Result DecodeError (A × WireReader)

abbrev next_decoder :
    {A B : Type 0}
    → Result DecodeError (A × WireReader)
    → (A → Decoder B)
    → Result DecodeError (B × WireReader)
next_decoder (ok (a, r)) f = f a r
next_decoder (err e) f = err e

infixl 5 ◌>>=◌ ◌>>◌
unfoldable pub ◌>>=◌ : {A B : Type 0} → Decoder A → (A → Decoder B) → Decoder B
◌>>=◌ m f r = next_decoder (m r) f

abbrev pub ◌>>◌ : {B : Type 0} → Decoder (Unit {0}) → Decoder B → Decoder B
m >> k = m >>= λ _. k

unfoldable pub pure : {A : Type 0} → A → Decoder A
pure a r = ok (a, r)

unfoldable pub fail : {A : Type 0} → DecodeError → Decoder A
fail e r = err e

unfoldable pub new : List ℕ → WireReader
new bytes = record { bytes = bytes; position = 0 }

-- `self.bytes.len().saturating_sub(self.position)`
unfoldable pub remaining : WireReader → ℕ
remaining r = length r.bytes - r.position

-- The bytes from `position` on, and the reader after `n` of them.
abbrev pub unread : WireReader → List ℕ
unread r = drop r.position r.bytes

abbrev pub advance : WireReader → ℕ → WireReader
advance r n = record r { position = r.position + n }

unfoldable pub read_bytes : ℕ → String → Decoder (List ℕ)
unfolding remaining
read_bytes len context r =
    if ltb (remaining r) len
    then err (truncated context len (remaining r))
    else ok (take len (unread r), advance r len)

-- `read_array::<n>`
unfoldable pub read_array : ℕ → String → Decoder (List ℕ)
read_array n context r =
    let left = length r.bytes - r.position in
    if ltb left n then err (truncated context n left) else ok (take n (unread r), advance r n)

unfoldable pub read_u32 : String → Decoder ℕ
read_u32 context = do bytes ← read_array 4 context; pure (from_le_bytes bytes)

unfoldable pub read_i32 : String → Decoder ℤ
read_i32 context = do bytes ← read_array 4 context; pure (i32_of_bits (from_le_bytes bytes))

unfoldable pub read_u64 : String → Decoder ℕ
read_u64 context = do bytes ← read_array 8 context; pure (from_le_bytes bytes)

-- `bytes[0]` of an array of one byte.
abbrev pub first : List ℕ → ℕ
first [] = 0
first (b ∷ bs) = b

unfoldable pub check_minimum : String → ℕ → ℕ → Decoder ℕ
check_minimum context minimum value =
    if ltb value minimum then fail (non_canonical_compact_size context value) else pure value

-- A tag of 0xfd, 0xfe or 0xff is followed by 2, 4 or 8 bytes, and by no value that fits a shorter form.
unfoldable pub compact_size_after : String → ℕ → Decoder ℕ
compact_size_after context tag =
    if leb tag 0xfc
    then pure tag
    else (if tag == 0xfd
        then (do bytes ← read_array 2 context; check_minimum context 0xfd (from_le_bytes bytes))
        else (if tag == 0xfe
            then (do
              bytes ← read_array 4 context
              check_minimum context 0x1_0000 (from_le_bytes bytes))
            else (do
              bytes ← read_array 8 context
              check_minimum context 0x1_0000_0000 (from_le_bytes bytes))))

unfoldable pub read_compact_size : String → Decoder ℕ
read_compact_size context = do tag ← read_array 1 context; compact_size_after context (first tag)

-- `usize` has 64 bits, so `usize::try_from` does not fail.
unfoldable pub read_limited_len : String → ℕ → Decoder ℕ
read_limited_len context limit = do
  value ← read_compact_size context
  if ltb limit value then fail (limit_exceeded context value limit) else pure value

unfoldable pub finish : WireReader → String → Result DecodeError (Unit {0})
unfolding remaining
finish r context = if remaining r == 0 then ok tt else err (trailing_bytes context (remaining r))
