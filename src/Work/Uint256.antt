-- ===== src/Work/Uint256.antt =====
-- crates/bitrst-core/src/uint256.rs: 256-bit numbers as arrays of bytes, lowest first. Where the
-- source adds two bytes, the sum wraps at 2^8, as it does without overflow checks.
use bitrst.Base.{
  ℕ, zero, suc, ◌+◌, ◌-◌, ◌*◌, ◌/◌, ◌%◌, ◌^◌, List, [], ◌∷◌, map, reverse, replicate, Option, none,
  some, Bool, true, false, ltb, ◌==◌, if◌then◌else◌,
}
use bitrst.Base.Keys.{bytes_discrete, holds}
use bitrst.Base.Options.{◌>>=◌}

pub data Ordering : Type 0 where
  less : Ordering
  equal : Ordering
  greater : Ordering

-- `Iterator::cmp`
abbrev pub compare_bytes : List ℕ → List ℕ → Ordering
compare_bytes [] [] = equal
compare_bytes [] (b ∷ right) = less
compare_bytes (a ∷ left) [] = greater
compare_bytes (a ∷ left) (b ∷ right) =
    let rest = compare_bytes left right in
    if ltb a b then less else (if ltb b a then greater else rest)

unfoldable pub cmp_le : List ℕ → List ℕ → Ordering
cmp_le left right = compare_bytes (reverse left) (reverse right)

abbrev pub is_less : Ordering → Bool
is_less less = true
is_less equal = false
is_less greater = false

abbrev pub is_greater : Ordering → Bool
is_greater less = false
is_greater equal = false
is_greater greater = true

abbrev pub cons_some : ℕ → Option (List ℕ) → Option (List ℕ)
cons_some byte none = none
cons_some byte (some bytes) = some (byte ∷ bytes)

-- The loop of `add_u256_le`; `checked_add` fails from 2^64 on.
unfoldable pub add_u256_le : List ℕ → ℕ → Option (List ℕ)
add_u256_le [] carry = if carry == 0 then some [] else none
add_u256_le (byte ∷ bytes) carry =
    let sum = byte + carry in
    let rest = add_u256_le bytes (sum / 256) in
    if ltb sum (2 ^ 64)
    then (if sum / 256 == 0 then some ((sum % 256) ∷ bytes) else cons_some (sum % 256) rest)
    else none

unfoldable pub not_u256_le : List ℕ → List ℕ
not_u256_le = map (λ byte. 255 - byte)

-- `(byte << 1) | carry`, the carry being the top bit of the byte below.
abbrev pub shl_loop : ℕ → List ℕ → List ℕ
shl_loop carry [] = []
shl_loop carry (byte ∷ bytes) = (byte * 2 % 256 + carry) ∷ shl_loop (byte / 128) bytes

unfoldable pub shl_one_u256_le : List ℕ → List ℕ
shl_one_u256_le value = shl_loop 0 value

-- `left.overflowing_sub(right + borrow)` at every byte, and the borrow behind the last.
abbrev pub sub_loop : ℕ → List ℕ → List ℕ → List ℕ × ℕ
sub_loop borrow [] right = ([], borrow)
sub_loop borrow (l ∷ left) [] = ([], borrow)
sub_loop borrow (l ∷ left) (r ∷ right) =
    let subtrahend = (r + borrow) % 256 in
    let (out, last) = sub_loop (if ltb l subtrahend then 1 else 0) left right in
    (((l + 256 - subtrahend) % 256) ∷ out, last)

abbrev pub without_borrow : List ℕ × ℕ → Option (List ℕ)
without_borrow (out, borrow) = if borrow == 0 then some out else none

unfoldable pub sub_u256_le : List ℕ → List ℕ → Option (List ℕ)
sub_u256_le left right = without_borrow (sub_loop 0 left right)

-- Bit `bit % 8` of byte `bit / 8`.
abbrev pub byte_at : List ℕ → ℕ → ℕ
byte_at [] index = 0
byte_at (byte ∷ bytes) zero = byte
byte_at (byte ∷ bytes) (suc index) = byte_at bytes index

abbrev pub bit_of : ℕ → ℕ → Bool
bit_of byte k = byte / 2 ^ k % 2 == 1

unfoldable pub bit_is_set : List ℕ → ℕ → Bool
bit_is_set value bit = bit_of (byte_at value (bit / 8)) (bit % 8)

-- `byte |= 1 << k`
abbrev pub with_bit : ℕ → ℕ → ℕ
with_bit byte k = if bit_of byte k then byte else byte + 2 ^ k

abbrev pub set_in : List ℕ → ℕ → ℕ → List ℕ
set_in [] index k = []
set_in (byte ∷ bytes) zero k = with_bit byte k ∷ bytes
set_in (byte ∷ bytes) (suc index) k = byte ∷ set_in bytes index k

unfoldable pub set_bit : List ℕ → ℕ → List ℕ
set_bit value bit = set_in value (bit / 8) (bit % 8)

-- `remainder[0] |= 1`
abbrev pub set_lowest : Bool → List ℕ → List ℕ
set_lowest false value = value
set_lowest true value = set_in value 0 0

-- The body of the division loop for one bit: quotient and remainder before and after.
unfoldable pub div_step : List ℕ → List ℕ → ℕ → List ℕ × List ℕ → Option (List ℕ × List ℕ)
div_step dividend divisor bit (quotient, remainder) =
    let remainder' = set_lowest (bit_is_set dividend bit) (shl_one_u256_le remainder) in
    if is_greater (cmp_le divisor remainder')
    then some (quotient, remainder')
    else (do difference ← sub_u256_le remainder' divisor; some (set_bit quotient bit, difference))

-- `for bit in (0..bits).rev()`
unfoldable pub div_loop : List ℕ → List ℕ → ℕ → List ℕ × List ℕ → Option (List ℕ × List ℕ)
div_loop dividend divisor zero state = some state
div_loop dividend divisor (suc bit) state = do
  state' ← div_step dividend divisor bit state
  div_loop dividend divisor bit state'

abbrev pub zero_u256 : List ℕ
zero_u256 = replicate 32 0

unfoldable pub div_u256_le : List ℕ → List ℕ → Option (List ℕ)
div_u256_le dividend divisor =
    if holds (bytes_discrete divisor zero_u256)
    then none
    else (if is_less (cmp_le dividend divisor)
        then some zero_u256
        else (do state ← div_loop dividend divisor 256 (zero_u256, zero_u256); some state.0))

-- `(~target / (target + 1)) + 1`
unfoldable pub work_from_target : List ℕ → Option (List ℕ)
work_from_target threshold = if holds (bytes_discrete threshold zero_u256) then none else (do
  target_plus_one ← add_u256_le threshold 1
  quotient ← div_u256_le (not_u256_le threshold) target_plus_one
  add_u256_le quotient 1)
