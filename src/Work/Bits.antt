-- ===== src/Work/Bits.antt =====
-- Bits of the 256-bit numbers of crates/bitrst-core/src/uint256.rs.
use bitrst.Base.{
  ℕ, zero, suc, ◌+◌, ◌*◌, ◌/◌, ◌%◌, ◌^◌, ◌<◌, ◌≡◌, refl, sym, ap, ◌∙◌, List, [], ◌∷◌, length, All,
  false, ◌==◌, arith,
}
use native.Mathlib.Nat.{pow-succ', mul_left_comm, zero-div}
use bitrst.Wire.Bytes.{IsByte, IsArray, from_le_bytes}
use bitrst.Work.Uint256.{byte_at, bit_of, bit_is_set, set_in, set_bit}

-- `n` halved `bits` times.
abbrev pub shr : ℕ → ℕ → ℕ
shr n zero = n
shr n (suc bits) = shr (n / 2) bits

pub shr-zero : (bits : ℕ) → shr 0 bits ≡ 0
shr-zero zero = refl
shr-zero (suc bits) = shr-zero bits

pub shr-half : (n bits : ℕ) → shr n (suc bits) ≡ shr n bits / 2
shr-half n zero = refl
shr-half n (suc bits) = shr-half (n / 2) bits

pub double-power : (q bits : ℕ) → q * 2 ^ suc bits ≡ 2 * (q * 2 ^ bits)
double-power q bits = rw (pow-succ' 2 bits) (mul_left_comm q 2 (2 ^ bits))

pub shr-scaled : (q bits : ℕ) → shr (q * 2 ^ bits) bits ≡ q
shr-scaled q zero = omega arith
shr-scaled q (suc bits) =
    let scaled = double-power q bits in ap (λ (n : ℕ). shr n bits) (omega arith) ∙ shr-scaled q bits

-- The eight bits of the lowest byte.
bit_of_low : (k b m : ℕ) → k < 8 → b < 256 → bit_of b k ≡ (shr (b + 256 * m) k % 2 == 1)
bit_of_low zero b m h hb = ap (λ (n : ℕ). n == 1) (omega arith)
bit_of_low (suc zero) b m h hb = ap (λ (n : ℕ). n == 1) (omega arith)
bit_of_low (suc (suc zero)) b m h hb = ap (λ (n : ℕ). n == 1) (omega arith)
bit_of_low (suc (suc (suc zero))) b m h hb = ap (λ (n : ℕ). n == 1) (omega arith)
bit_of_low (suc (suc (suc (suc zero)))) b m h hb = ap (λ (n : ℕ). n == 1) (omega arith)
bit_of_low (suc (suc (suc (suc (suc zero))))) b m h hb = ap (λ (n : ℕ). n == 1) (omega arith)
bit_of_low (suc (suc (suc (suc (suc (suc zero)))))) b m h hb = ap (λ (n : ℕ). n == 1) (omega arith)
bit_of_low (suc (suc (suc (suc (suc (suc (suc zero))))))) b m h hb =
    ap (λ (n : ℕ). n == 1) (omega arith)
bit_of_low (suc (suc (suc (suc (suc (suc (suc (suc k)))))))) b m h hb = absurd (omega arith)

abbrev eight_more : ℕ → ℕ
eight_more bits = suc (suc (suc (suc (suc (suc (suc (suc bits)))))))

shr_byte : (b m bits : ℕ) → b < 256 → shr (b + 256 * m) (eight_more bits) ≡ shr m bits
shr_byte b m bits hb = ap (λ (n : ℕ). shr n bits) (omega arith)

power_byte : (bits : ℕ) → 2 ^ eight_more bits ≡ 256 * 2 ^ bits
power_byte bits = omega (
  arith,
  pow-succ' 2 bits,
  pow-succ' 2 (suc bits),
  pow-succ' 2 (suc (suc bits)),
  pow-succ' 2 (suc (suc (suc bits))),
  pow-succ' 2 (suc (suc (suc (suc bits)))),
  pow-succ' 2 (suc (suc (suc (suc (suc bits))))),
  pow-succ' 2 (suc (suc (suc (suc (suc (suc bits)))))),
  pow-succ' 2 (suc (suc (suc (suc (suc (suc (suc bits))))))),
)

bit_of_none : (k : ℕ) → bit_of 0 k ≡ false
bit_of_none k = rw (zero-div (2 ^ k)) refl

byte_at-shr :
    (bytes : List ℕ) (index k : ℕ)
    → All IsByte bytes
    → k < 8
    → bit_of (byte_at bytes index) k ≡ (shr (from_le_bytes bytes) (8 * index + k) % 2 == 1)
unfolding from_le_bytes
byte_at-shr [] index k h small = rw (shr-zero (8 * index + k), bit_of_none k) refl
byte_at-shr (b ∷ bytes) zero k (hb, h) small =
    bit_of_low k b (from_le_bytes bytes) small hb
    ∙ ap (λ (n : ℕ). shr (b + 256 * from_le_bytes bytes) n % 2 == 1) {x = k} {y = 8 * 0 + k}
        (omega arith)
byte_at-shr (b ∷ bytes) (suc index) k (hb, h) small =
    byte_at-shr bytes index k h small
    ∙ ap (λ (n : ℕ). n % 2 == 1) (sym (shr_byte b (from_le_bytes bytes) (8 * index + k) hb))
    ∙ ap (λ (n : ℕ). shr (b + 256 * from_le_bytes bytes) n % 2 == 1)
        {x = eight_more (8 * index + k)} {y = 8 * suc index + k} (omega arith)

-- A bit of the array is a bit of the number.
pub bit_is_set-shr :
    (bytes : List ℕ) (bit : ℕ)
    → All IsByte bytes
    → bit_is_set bytes bit ≡ (shr (from_le_bytes bytes) bit % 2 == 1)
unfolding bit_is_set
bit_is_set-shr bytes bit h =
    byte_at-shr bytes (bit / 8) (bit % 8) h (omega arith)
    ∙ ap (λ (n : ℕ). shr (from_le_bytes bytes) n % 2 == 1) {x = 8 * (bit / 8) + bit % 8} {y = bit}
        (omega arith)

pub with_bit-IsByte : (k b : ℕ) → k < 8 → b < 256 → bit_of b k ≡ false → b + 2 ^ k < 256
with_bit-IsByte zero b h hb e = ground arith
with_bit-IsByte (suc zero) b h hb e = ground arith
with_bit-IsByte (suc (suc zero)) b h hb e = ground arith
with_bit-IsByte (suc (suc (suc zero))) b h hb e = ground arith
with_bit-IsByte (suc (suc (suc (suc zero)))) b h hb e = ground arith
with_bit-IsByte (suc (suc (suc (suc (suc zero))))) b h hb e = ground arith
with_bit-IsByte (suc (suc (suc (suc (suc (suc zero)))))) b h hb e = ground arith
with_bit-IsByte (suc (suc (suc (suc (suc (suc (suc zero))))))) b h hb e = ground arith
with_bit-IsByte (suc (suc (suc (suc (suc (suc (suc (suc k)))))))) b h hb e = absurd (omega arith)

-- Setting a clear bit adds its weight.
pub set_in-eq :
    (bytes : List ℕ) (index k : ℕ)
    → All IsByte bytes
    → k < 8
    → index < length bytes
    → bit_of (byte_at bytes index) k ≡ false
    → (from_le_bytes (set_in bytes index k) ≡ from_le_bytes bytes + 2 ^ (8 * index + k))
      × (length (set_in bytes index k) ≡ length bytes)
      × All IsByte (set_in bytes index k)
unfolding from_le_bytes
set_in-eq [] index k h small inside clear = absurd (omega arith)
set_in-eq (b ∷ bytes) zero k (hb, h) small inside clear =
    let place : 8 * 0 + k ≡ k = omega arith in
    rw (clear, place) (omega arith, refl, (with_bit-IsByte k b small hb clear, h))
set_in-eq (b ∷ bytes) (suc index) k (hb, h) small inside clear =
    let (value, size, bytes') = set_in-eq bytes index k h small (omega arith) clear in
    let weight = power_byte (8 * index + k) in
    let place : 8 * suc index + k ≡ eight_more (8 * index + k) = omega arith in
    rw place (omega arith, ap suc size, (hb, bytes'))

pub set_bit-eq :
    (bytes : List ℕ) (bit : ℕ)
    → IsArray 32 bytes
    → bit < 256
    → bit_is_set bytes bit ≡ false
    → (from_le_bytes (set_bit bytes bit) ≡ from_le_bytes bytes + 2 ^ bit)
      × IsArray 32 (set_bit bytes bit)
unfolding set_bit bit_is_set
set_bit-eq bytes bit array small clear =
    let size : length bytes ≡ 32 = array.size in
    let (value, size', bytes') =
      set_in-eq bytes (bit / 8) (bit % 8) array.bytes (omega arith) (omega arith) clear in
    let place : 8 * (bit / 8) + bit % 8 ≡ bit = omega arith in
    (rw place at value, record { size = size' ∙ size; bytes = bytes' })
