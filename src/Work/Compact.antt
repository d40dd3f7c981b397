-- ===== src/Work/Compact.antt =====
-- What the targets of crates/bitrst-core/src/pow.rs mean as numbers.
use bitrst.Base.{
  ℕ, zero, suc, ◌+◌, ◌-◌, ◌*◌, ◌/◌, ◌%◌, ◌^◌, ◌<◌, ◌≤◌, ◌≡◌, ◌↔◌, refl, sym, ap, ◌∙◌, List, [], ◌∷◌,
  ◌++◌, length, replicate, All, All-append, length-append, length-replicate, none, some, true, ltb,
  leb, ◌==◌, ◌||◌, if◌then◌else◌, Bool-cases, inl, inr, arith,
}
use native.Mathlib.Nat.{pow-succ', mul_assoc, mul-le-mul, pow-le-pow_right, div-le_self}
use bitrst.Wire.Bytes.{
  IsByte, IsArray, from_le_bytes, to_le_bytes, from_le_bytes-to_le_bytes, length-to_le_bytes,
  to_le_bytes-IsByte,
}
use bitrst.Work.Uint256.{cmp_le}
use bitrst.Work.Compare.{cmp_le-order}
use bitrst.Work.Target.{Target, meets, compare_internal_hash, placed, from_bits}

-- A hash of 32 bytes meets a target of 32 bytes exactly when, as a number, it is at most the
-- target.
pub meets_iff :
    (target : Target) (hash : List ℕ)
    → IsArray 32 target.threshold
    → IsArray 32 hash
    → (meets target hash ≡ true) ↔ (from_le_bytes hash ≤ from_le_bytes target.threshold)
unfolding meets compare_internal_hash cmp_le
meets_iff target hash t h =
    let compared = cmp_le-order hash target.threshold (h.size ∙ sym t.size) h.bytes t.bytes in
    rw compared (λ m. ground arith, λ le. ground arith)

zeros-IsByte : (n : ℕ) → All IsByte (replicate n 0)
zeros-IsByte zero = tt
zeros-IsByte (suc n) = (omega arith, zeros-IsByte n)

from_le_bytes-zeros : (n : ℕ) → from_le_bytes (replicate n 0) ≡ 0
unfolding from_le_bytes
from_le_bytes-zeros zero = refl
from_le_bytes-zeros (suc n) = omega (arith, from_le_bytes-zeros n)

from_le_bytes-append_zeros :
    (bytes : List ℕ) (n : ℕ) → from_le_bytes (bytes ++ replicate n 0) ≡ from_le_bytes bytes
unfolding from_le_bytes
from_le_bytes-append_zeros [] n = from_le_bytes-zeros n
from_le_bytes-append_zeros (b ∷ bytes) n = omega (arith, from_le_bytes-append_zeros bytes n)

from_le_bytes-shifted :
    (n : ℕ) (bytes : List ℕ)
    → from_le_bytes (replicate n 0 ++ bytes) ≡ 256 ^ n * from_le_bytes bytes
unfolding from_le_bytes
from_le_bytes-shifted zero bytes = omega arith
from_le_bytes-shifted (suc n) bytes =
    rw (pow-succ' 256 n, mul_assoc 256 (256 ^ n) (from_le_bytes bytes))
      (omega (arith, from_le_bytes-shifted n bytes))

placed-eq :
    (offset value : ℕ)
    → offset ≤ 29
    → value < 2 ^ 24
    → (from_le_bytes (placed offset value) ≡ 256 ^ offset * value)
      × IsArray 32 (placed offset value)
placed-eq offset value fits small =
    let three = length-to_le_bytes 3 value in
    let size : length (to_le_bytes 3 value ++ replicate (29 - offset) 0) ≡ 32 - offset =
      length-append (to_le_bytes 3 value) (replicate (29 - offset) 0)
      ∙ rw (three, length-replicate {A = ℕ} (29 - offset) 0) (omega arith) in
    (
      from_le_bytes-shifted offset (to_le_bytes 3 value ++ replicate (29 - offset) 0)
          ∙ ap (λ (n : ℕ). 256 ^ offset * n)
              (from_le_bytes-append_zeros (to_le_bytes 3 value) (29 - offset)
                ∙ from_le_bytes-to_le_bytes 3 value (omega arith)),
      record {
        size =
            length-append (replicate offset 0) (to_le_bytes 3 value ++ replicate (29 - offset) 0)
            ∙ rw (size, length-replicate {A = ℕ} offset 0) (omega arith);
        bytes =
            All-append IsByte (replicate offset 0)
              (to_le_bytes 3 value ++ replicate (29 - offset) 0) (zeros-IsByte offset)
              (All-append IsByte (to_le_bytes 3 value) (replicate (29 - offset) 0)
                (to_le_bytes-IsByte 3 value) (zeros-IsByte (29 - offset)));
      },
    )

-- The mantissa, scaled by a power of 256 that the exponent gives; digits below 1 are cut off.
abbrev pub compact_value : ℕ → ℕ
compact_value bits =
    let exponent = bits / 2 ^ 24 in
    let mantissa = bits % 2 ^ 23 in
    if leb exponent 3 then mantissa / 2 ^ (8 * (3 - exponent)) else 256 ^ (exponent - 3) * mantissa

-- What a target has to be to stand for `value`.
pub record Encodes (value : ℕ) (target : Target) : Type 0 where
  pub array : IsArray 32 target.threshold
  pub same : from_le_bytes target.threshold ≡ value
  pub half : value < 2 ^ 255

placed-Encodes :
    (offset value : ℕ)
    → offset ≤ 29
    → value < 2 ^ 23
    → Encodes (256 ^ offset * value) (record { threshold = placed offset value })
placed-Encodes offset value fits small =
    let (same, array) = placed-eq offset value fits (omega arith) in
    let top : 256 ^ offset * value ≤ 256 ^ 29 * (2 ^ 23 - 1) =
      mul-le-mul {m₂ = 2 ^ 23 - 1} (pow-le-pow_right {n = 256} (omega arith) fits) (omega arith) in
    record { array = array; same = same; half = omega arith }

-- Compact bits that decode are not negative and have a mantissa, and their target stands for
-- the mantissa scaled by the exponent, which is less than 2^255.
pub from_bits-eq :
    (bits : ℕ) (target : Target)
    → from_bits bits ≡ some target
    → (0 < bits % 2 ^ 23) × (bits / 2 ^ 23 % 2 ≡ 0) × Encodes (compact_value bits) target
unfolding from_bits
from_bits-eq bits target h =
    let exponent = bits / 2 ^ 24 in
    let mantissa = bits % 2 ^ 23 in
    elim (Bool-cases (mantissa == 0 || bits / 2 ^ 23 % 2 == 1)) [
      | inl bad ↦ let e : none ≡ some target = rw bad at h in absurd (ground arith)
      | inr good ↦ elim (Bool-cases (leb exponent 3)) [
        | inl low ↦
            let v = mantissa / 2 ^ (8 * (3 - exponent)) in
            let e : some (record { threshold = placed 0 v }) ≡ some target = rw (good, low) at h in
            let same : record { threshold = placed 0 v } ≡ target = ground arith in
            let less : v ≤ mantissa = div-le_self mantissa (2 ^ (8 * (3 - exponent))) in
            let known = placed-Encodes 0 v (omega arith) (omega arith) in
            let one : 256 ^ 0 * v ≡ v = omega arith in
            let encodes : Encodes v target = rw (one, same) at known in
            (ground arith, ground arith, rw low encodes)
        | inr high ↦ elim (Bool-cases (ltb 32 (exponent - 3 + 3))) [
          | inl over ↦
              let e : none ≡ some target = rw (good, high, over) at h in absurd (ground arith)
          | inr fits ↦
              let e : some (record { threshold = placed (exponent - 3) mantissa }) ≡ some target =
                rw (good, high, fits) at h in
              let same : record { threshold = placed (exponent - 3) mantissa } ≡ target =
                ground arith in
              let known = placed-Encodes (exponent - 3) mantissa (ground arith) (omega arith) in
              let encodes : Encodes (256 ^ (exponent - 3) * mantissa) target = rw same at known in
              (ground arith, ground arith, rw high encodes)
        ]
      ]
    ]
