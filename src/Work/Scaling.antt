-- ===== src/Work/Scaling.antt =====
-- `mul_div_threshold` of crates/bitrst-core/src/difficulty.rs against arithmetic on numbers.
use bitrst.Base.{
  ℕ, suc, ◌+◌, ◌-◌, ◌*◌, ◌/◌, ◌%◌, ◌^◌, ◌<◌, ◌≤◌, ◌≡◌, refl, sym, ap, ◌∙◌, List, [], ◌∷◌, ◌++◌,
  length, All, All-append, some, false, leb, ◌==◌, Bool-cases, inl, inr, lt→ltb, arith,
}
use native.Mathlib.Nat.{
  mul_assoc, add-mul, zero-mul, mul-le-mul, mod-lt, div-add-mod', div-lt_iff_lt-mul, div-eq_of_lt,
  mod-eq_of_lt,
}
use bitrst.Wire.Bytes.{
  IsByte, IsArray, from_le_bytes, to_le_bytes, from_le_bytes-to_le_bytes, to_le_bytes-IsByte,
}
use bitrst.Work.Division.{quotient_unique}
use bitrst.Work.Arithmetic.{pow-suc-mul}
use bitrst.Work.Difficulty.{mul_loop, div_from, div_le_by_u64, mul_div_threshold}

-- The product in bytes and the carry; a numerator of 32 bits leaves room for every round.
mul_loop-eq :
    (numerator : ℕ) (bytes : List ℕ) (carry : ℕ)
    → All IsByte bytes
    → numerator < 2 ^ 32
    → carry < 2 ^ 32
    → (out : List ℕ) × (last : ℕ) × (mul_loop numerator bytes carry ≡ some (out, last))
      × (from_le_bytes out + 256 ^ length bytes * last ≡ from_le_bytes bytes * numerator + carry)
      × (length out ≡ length bytes)
      × (last < 2 ^ 32)
      × All IsByte out
unfolding mul_loop from_le_bytes
mul_loop-eq n [] carry h small fits = ([], carry, refl, omega (arith, zero-mul n), refl, fits, tt)
mul_loop-eq n (b ∷ bytes) carry (hb, h) small fits =
    let top : b * n ≤ 255 * (2 ^ 32 - 1) =
      mul-le-mul {n₂ = 255} {m₂ = 2 ^ 32 - 1} (omega arith) (omega arith) in
    let scaled = b * n + carry in
    let (out, last, e, value, size, last_small, low) =
      mul_loop-eq n bytes (scaled / 256) h small (omega arith) in
    let spread : (b + 256 * from_le_bytes bytes) * n ≡ b * n + 256 * (from_le_bytes bytes * n) =
      add-mul b (256 * from_le_bytes bytes) n
      ∙ ap (λ (m : ℕ). b * n + m) (mul_assoc 256 (from_le_bytes bytes) n) in
    let weight = pow-suc-mul (length bytes) last in
    (
      (scaled % 256) ∷ out,
      last,
      rw (lt→ltb scaled (2 ^ 64) (omega arith), e) refl,
      omega arith,
      ap suc size,
      last_small,
      (omega arith, low),
    )

-- Behind the 32 bytes of the quotient only a remainder may be left.
div_from-high :
    (divisor index : ℕ) (bytes : List ℕ)
    → All IsByte bytes
    → divisor < 2 ^ 32
    → 32 ≤ index
    → from_le_bytes bytes < divisor
    → div_from divisor index bytes ≡ some ([], from_le_bytes bytes)
unfolding div_from from_le_bytes
div_from-high d index [] h small behind less = refl
div_from-high d index (b ∷ bytes) (hb, h) small behind less =
    let acc = from_le_bytes bytes * 256 + b in
    let e = div_from-high d (suc index) bytes h small (omega arith) (omega arith) in
    let below : acc < d = omega arith in
    rw (e, lt→ltb acc (2 ^ 64) (omega arith), div-eq_of_lt below, mod-eq_of_lt below)
      (elim (Bool-cases (leb 32 index)) [
        | inl past ↦ rw past (ap (λ (n : ℕ). some ([], n)) (omega arith))
        | inr before ↦ absurd (ground arith)
      ])

div_from-eq :
    (divisor index : ℕ) (bytes : List ℕ)
    → All IsByte bytes
    → 0 < divisor
    → divisor < 2 ^ 32
    → index ≤ 32
    → from_le_bytes bytes < 256 ^ (32 - index) * divisor
    → (quotient : List ℕ) × (remainder : ℕ) × (div_from divisor index bytes
        ≡ some (quotient, remainder))
      × (from_le_bytes quotient * divisor + remainder ≡ from_le_bytes bytes)
      × (remainder < divisor)
unfolding div_from from_le_bytes
div_from-eq d index [] h positive small inside less =
    ([], 0, refl, omega (arith, zero-mul d), positive)
div_from-eq d index (b ∷ bytes) (hb, h) positive small inside less =
    elim (Bool-cases (leb 32 index)) [
      | inl at_end ↦
          let exact : 32 - index ≡ 0 = ground arith in
          let less' : from_le_bytes (b ∷ bytes) < 256 ^ 0 * d = rw exact at less in
          let e = div_from-high d index (b ∷ bytes) (hb, h) small (ground arith) (omega arith) in
          ([], from_le_bytes (b ∷ bytes), e, omega (arith, zero-mul d), omega arith)
      | inr before ↦
          let places : 32 - index ≡ suc (32 - suc index) = ground arith in
          let weight = pow-suc-mul (32 - suc index) d in
          let less' : b + 256 * from_le_bytes bytes < 256 ^ suc (32 - suc index) * d =
            rw places at less in
          let (above, r, e, value, bound) =
            div_from-eq d (suc index) bytes h positive small (ground arith) (omega arith) in
          let acc = r * 256 + b in
          let digit : acc / d < 256 = (div-lt_iff_lt-mul positive).1 (omega arith) in
          let whole : acc / d % 256 ≡ acc / d = omega arith in
          let parts = div-add-mod' acc d in
          let spread : (acc / d + 256 * from_le_bytes above) * d
              ≡ acc / d * d + 256 * (from_le_bytes above * d) =
            add-mul (acc / d) (256 * from_le_bytes above) d
            ∙ ap (λ (m : ℕ). acc / d * d + m) (mul_assoc 256 (from_le_bytes above) d) in
          (
            (acc / d) ∷ above,
            acc % d,
            rw (e, lt→ltb acc (2 ^ 64) (omega arith), before, whole) refl,
            omega arith,
            mod-lt acc positive,
          )
    ]

from_le_bytes-append :
    (low high : List ℕ)
    → from_le_bytes (low ++ high) ≡ from_le_bytes low + 256 ^ length low * from_le_bytes high
unfolding from_le_bytes
from_le_bytes-append [] high = omega arith
from_le_bytes-append (b ∷ low) high =
    let weight = pow-suc-mul (length low) (from_le_bytes high) in
    omega (arith, from_le_bytes-append low high)

-- Scaling a threshold by a fraction gives the scaled number, rounded down, if that fits in 256
-- bits and the parts of the fraction in 32.
pub mul_div_threshold-eq :
    (threshold : List ℕ) (numerator denominator : ℕ)
    → IsArray 32 threshold
    → numerator < 2 ^ 32
    → 0 < denominator
    → denominator < 2 ^ 32
    → from_le_bytes threshold * numerator < 2 ^ 256 * denominator
    → (scaled : List ℕ) × (mul_div_threshold threshold numerator denominator ≡ some scaled)
      × (from_le_bytes scaled ≡ from_le_bytes threshold * numerator / denominator)
unfolding mul_div_threshold div_le_by_u64
mul_div_threshold-eq threshold n d array small positive small' fits =
    let (out, last, e, value, size, last_small, low) =
      mul_loop-eq n threshold 0 array.bytes small (omega arith) in
    let input : List ℕ = out ++ to_le_bytes 4 last in
    let places : length out ≡ 32 = size ∙ array.size in
    let places' : length threshold ≡ 32 = array.size in
    let value' : from_le_bytes out + 256 ^ 32 * last ≡ from_le_bytes threshold * n + 0 =
      rw places' at value in
    let whole : from_le_bytes input ≡ from_le_bytes threshold * n =
      from_le_bytes-append out (to_le_bytes 4 last)
      ∙ rw (places, from_le_bytes-to_le_bytes 4 last (omega arith)) (omega arith) in
    let (quotient, remainder, e', parts, bound) =
      div_from-eq d 0 input
        (All-append IsByte out (to_le_bytes 4 last) low (to_le_bytes-IsByte 4 last)) positive small'
        (omega arith) (rw whole fits) in
    let some_left : (d == 0) ≡ false = ground arith in
    (
      quotient,
      rw (some_left, e, lt→ltb last (2 ^ 32) last_small, e') refl,
      sym (
          quotient_unique (from_le_bytes quotient) d remainder (from_le_bytes threshold * n)
            (parts ∙ whole) bound),
    )
