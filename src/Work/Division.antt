-- ===== src/Work/Division.antt =====
-- `div_u256_le` and `work_from_target` of crates/bitrst-core/src/uint256.rs.
use bitrst.Base.{
  ℕ, zero, suc, ◌+◌, ◌*◌, ◌/◌, ◌%◌, ◌^◌, ◌<◌, ◌≤◌, ◌≡◌, refl, sym, ap, ◌∙◌, List, length, All, some,
  Bool, true, false, ltb, ◌==◌, if◌then◌else◌, Bool-cases, inl, inr, ltb→lt, ltb→le, arith,
}
use native.Mathlib.Nat.{
  mul_assoc, add-mul, one-mul, pow-succ', add-mul-div_right, div-le_self, mul-add-div_right,
  div-eq_of_lt,
}
use bitrst.Wire.Bytes.{IsArray, from_le_bytes, from_le_bytes-lt}
use bitrst.Work.Uint256.{
  cmp_le, is_greater, is_less, add_u256_le, not_u256_le, work_from_target, bit_is_set, set_bit,
  set_lowest, shl_one_u256_le, div_step, div_loop, div_u256_le, zero_u256,
}
use bitrst.Work.Compare.{cmp_le-order}
use bitrst.Work.Arithmetic.{
  IsLow, add_u256_le-eq, add_u256_le-some, not_u256_le-eq, shl_one_u256_le-eq, sub_u256_le-eq,
}
use bitrst.Base.Keys.{bytes_discrete, holds-false}
use bitrst.Work.Bits.{shr, shr-half, shr-scaled, double-power, bit_is_set-shr, set_bit-eq}

-- Quotient and remainder of the bits from `bit` on; `count` is the quotient without its zeros.
record Partial (dividend divisor : List ℕ) (bit count : ℕ) (state : List ℕ × List ℕ) : Type 0 where
  quotient_array : IsArray 32 state.0
  remainder_array : IsArray 32 state.1
  quotient : from_le_bytes state.0 ≡ count * 2 ^ bit
  product : count * from_le_bytes divisor + from_le_bytes state.1 ≡ shr (from_le_bytes dividend) bit
  bound : from_le_bytes state.1 < from_le_bytes divisor

abbrev bit_value : Bool → ℕ
bit_value b = if b then 1 else 0

set_lowest-eq :
    (b : Bool) (bytes : List ℕ) (half : ℕ)
    → IsArray 32 bytes
    → from_le_bytes bytes ≡ 2 * half
    → (from_le_bytes (set_lowest b bytes) ≡ 2 * half + bit_value b)
      × IsArray 32 (set_lowest b bytes)
unfolding set_bit
set_lowest-eq false bytes half array e = (omega arith, array)
set_lowest-eq true bytes half array e =
    let clear : bit_is_set bytes 0 ≡ false = bit_is_set-shr bytes 0 array.bytes ∙ ground arith in
    let (value, array') = set_bit-eq bytes 0 array (omega arith) clear in (omega arith, array')

twice : (count d : ℕ) → 2 * count * d ≡ 2 * (count * d)
twice count d = mul_assoc 2 count d

twice_and_one : (count d : ℕ) → (2 * count + 1) * d ≡ 2 * (count * d) + d
twice_and_one count d = rw (add-mul (2 * count) 1 d, mul_assoc 2 count d, one-mul d) refl

-- The remainder with the next bit behind it.
abbrev next_remainder : List ℕ → ℕ → List ℕ → List ℕ
next_remainder dividend bit remainder =
    set_lowest (bit_is_set dividend bit) (shl_one_u256_le remainder)

module _ (dividend divisor : List ℕ) (dividend_array : IsArray 32 dividend)
    (divisor_array : IsArray 32 divisor) (low : All IsLow divisor)
    (half : 2 * from_le_bytes divisor ≤ 2 ^ 256) where
  next_remainder-eq :
      (bit count : ℕ) (state : List ℕ × List ℕ)
      → Partial dividend divisor (suc bit) count state
      → (2 * (count * from_le_bytes divisor) + from_le_bytes (next_remainder dividend bit state.1)
          ≡ shr (from_le_bytes dividend) bit)
        × (from_le_bytes (next_remainder dividend bit state.1) < 2 * from_le_bytes divisor)
        × IsArray 32 (next_remainder dividend bit state.1)
  next_remainder-eq bit count state known =
      let r = state.1 in
      let bound : from_le_bytes r < from_le_bytes divisor = known.bound in
      let size : length r ≡ 32 = known.remainder_array.size in
      let fits : 2 * from_le_bytes r < 256 ^ length r = rw size (omega arith) in
      let (shifted, size', bytes') = shl_one_u256_le-eq r known.remainder_array.bytes fits in
      let (value, array) =
        set_lowest-eq (bit_is_set dividend bit) (shl_one_u256_le r) (from_le_bytes r)
          (record { size = size' ∙ size; bytes = bytes' }) shifted in
      let product = known.product in
      let halved = shr-half (from_le_bytes dividend) bit in
      let same = bit_is_set-shr dividend bit dividend_array.bytes in
      let value' : from_le_bytes (next_remainder dividend bit r)
          ≡ 2 * from_le_bytes r + bit_value (shr (from_le_bytes dividend) bit % 2 == 1) =
        value ∙ ap (λ b. 2 * from_le_bytes r + bit_value b) same in
      (ground arith, ground arith, array)

  div_step-Partial :
      (bit count : ℕ) (state : List ℕ × List ℕ)
      → bit < 256
      → Partial dividend divisor (suc bit) count state
      → (count' : ℕ) × (state' : List ℕ × List ℕ) × (div_step dividend divisor bit state
          ≡ some state')
        × Partial dividend divisor bit count' state'
  unfolding div_step
  div_step-Partial bit count (quotient, remainder) small known =
      let r = next_remainder dividend bit remainder in
      let (product, bound, array) = next_remainder-eq bit count (quotient, remainder) known in
      let weight = double-power count bit in
      let compared =
        cmp_le-order divisor r (divisor_array.size ∙ sym array.size) divisor_array.bytes
          array.bytes in
      elim (Bool-cases (ltb (from_le_bytes r) (from_le_bytes divisor))) [
        | inl less ↦
            let above : is_greater (cmp_le divisor r) ≡ true = rw compared (ground arith) in
            (
              2 * count,
              (quotient, r),
              rw above refl,
              record {
                quotient_array = known.quotient_array;
                remainder_array = array;
                quotient = known.quotient ∙ weight ∙ sym (mul_assoc 2 count (2 ^ bit));
                product = rw (twice count (from_le_bytes divisor)) product;
                bound = ltb→lt _ _ less;
              },
            )
        | inr enough ↦
            let at : from_le_bytes divisor ≤ from_le_bytes r = ltb→le _ _ enough in
            let not_above : is_greater (cmp_le divisor r) ≡ false = rw compared (ground arith) in
            let (out, e, value, size, bytes) =
              sub_u256_le-eq r divisor (array.size ∙ sym divisor_array.size) array.bytes low at in
            let clear : bit_is_set quotient bit ≡ false =
              bit_is_set-shr quotient bit known.quotient_array.bytes
              ∙ rw
                  (
                    known.quotient,
                    weight,
                    sym (mul_assoc 2 count (2 ^ bit)),
                    shr-scaled (2 * count) bit,
                  )
                  (ground arith) in
            let (set, set_array) = set_bit-eq quotient bit known.quotient_array small clear in
            let same = known.quotient in
            (
              2 * count + 1,
              (set_bit quotient bit, out),
              rw (not_above, e) refl,
              record {
                quotient_array = set_array;
                remainder_array = record { size = size ∙ array.size; bytes = bytes };
                quotient = rw (twice_and_one count (2 ^ bit)) (omega arith);
                product = rw (twice_and_one count (from_le_bytes divisor)) (omega arith);
                bound = omega arith;
              },
            )
      ]

  div_loop-Partial :
      (bit count : ℕ) (state : List ℕ × List ℕ)
      → bit ≤ 256
      → Partial dividend divisor bit count state
      → (count' : ℕ) × (state' : List ℕ × List ℕ) × (div_loop dividend divisor bit state
          ≡ some state')
        × Partial dividend divisor 0 count' state'
  unfolding div_loop
  div_loop-Partial zero count state small known = (count, state, refl, known)
  div_loop-Partial (suc bit) count state small known =
      let (count₁, state₁, e₁, known₁) = div_step-Partial bit count state (omega arith) known in
      let (count₂, state₂, e₂, known₂) = div_loop-Partial bit count₁ state₁ (omega arith) known₁ in
      (count₂, state₂, rw (e₁, e₂) refl, known₂)

shr-small : (n bits : ℕ) → n < 2 ^ bits → shr n bits ≡ 0
shr-small n zero h = ground arith
shr-small n (suc bits) h = shr-small (n / 2) bits (omega (arith, pow-succ' 2 bits))

zero_u256-IsArray : IsArray 32 zero_u256
zero_u256-IsArray = record { size = refl; bytes = omega arith }

zero_u256-eq : from_le_bytes zero_u256 ≡ 0
unfolding from_le_bytes
zero_u256-eq = refl

not_zero : (bytes : List ℕ) → 0 < from_le_bytes bytes → ¬ (bytes ≡ zero_u256)
not_zero bytes positive e =
    let z : from_le_bytes bytes ≡ 0 = ap from_le_bytes e ∙ zero_u256-eq in omega arith

array_small : (bytes : List ℕ) → IsArray 32 bytes → from_le_bytes bytes < 2 ^ 256
array_small bytes array =
    let below = from_le_bytes-lt bytes array.bytes in
    let top : from_le_bytes bytes < 256 ^ 32 = rw array.size at below in omega arith

quotient_of :
    (count : ℕ) (quotient : List ℕ)
    → from_le_bytes quotient ≡ count * 2 ^ 0
    → from_le_bytes quotient ≡ count
quotient_of count quotient e = omega arith

pub quotient_unique : (c d r n : ℕ) → c * d + r ≡ n → r < d → n / d ≡ c
quotient_unique c d r n e h =
    let none_left : r / d ≡ 0 = div-eq_of_lt h in
    rw (sym e) (mul-add-div_right (omega arith) c r ∙ omega arith)

start-Partial :
    (dividend divisor : List ℕ)
    → IsArray 32 dividend
    → 0 < from_le_bytes divisor
    → Partial dividend divisor 256 0 (zero_u256, zero_u256)
start-Partial dividend divisor a positive = record {
  quotient_array = zero_u256-IsArray;
  remainder_array = zero_u256-IsArray;
  quotient = zero_u256-eq ∙ omega arith;
  product =
      omega (arith, zero_u256-eq)
      ∙ sym (shr-small (from_le_bytes dividend) 256 (array_small dividend a));
  bound = rw zero_u256-eq positive;
}

-- Division of two 256-bit numbers gives the quotient, if the divisor is not zero, is at most
-- 2^255, and has no byte 0xff.
pub div_u256_le-eq :
    (dividend divisor : List ℕ)
    → IsArray 32 dividend
    → IsArray 32 divisor
    → All IsLow divisor
    → 0 < from_le_bytes divisor
    → from_le_bytes divisor ≤ 2 ^ 255
    → (quotient : List ℕ) × (div_u256_le dividend divisor ≡ some quotient)
      × (from_le_bytes quotient ≡ from_le_bytes dividend / from_le_bytes divisor)
      × IsArray 32 quotient
unfolding div_u256_le
div_u256_le-eq dividend divisor a d low positive half =
    let compared = cmp_le-order dividend divisor (a.size ∙ sym d.size) a.bytes d.bytes in
    let there = holds-false (bytes_discrete divisor zero_u256) (not_zero divisor positive) in
    elim (Bool-cases (ltb (from_le_bytes dividend) (from_le_bytes divisor))) [
      | inl less ↦
          let below : is_less (cmp_le dividend divisor) ≡ true = rw compared (ground arith) in
          (
            zero_u256,
            rw (there, below) refl,
            zero_u256-eq ∙ sym (div-eq_of_lt (ltb→lt _ _ less)),
            zero_u256-IsArray,
          )
      | inr enough ↦
          let not_below : is_less (cmp_le dividend divisor) ≡ false = rw compared (ground arith) in
          let (count, (quotient, remainder), e, known) =
            div_loop-Partial dividend divisor a d low (omega arith) 256 0 (zero_u256, zero_u256)
              (omega arith) (start-Partial dividend divisor a positive) in
          let product = known.product in
          (
            quotient,
            rw (there, not_below, e) refl,
            quotient_of count quotient known.quotient
                ∙ sym (
                    quotient_unique count (from_le_bytes divisor) (from_le_bytes remainder)
                      (from_le_bytes dividend) product known.bound),
            known.quotient_array,
          )
    ]

work_sum : (t inverse : ℕ) → inverse + t + 1 ≡ 2 ^ 256 → inverse / (t + 1) + 1 ≡ 2 ^ 256 / (t + 1)
work_sum t inverse e =
    sym (add-mul-div_right inverse 1 (omega arith)) ∙ ap (λ (n : ℕ). n / (t + 1)) (omega arith)

-- The work of a target of 32 bytes is 2^256 divided by the target plus one, if the target is
-- not zero, is less than 2^255, and the target plus one has no byte 0xff.
pub work_from_target-eq :
    (threshold target_plus_one : List ℕ)
    → IsArray 32 threshold
    → add_u256_le threshold 1 ≡ some target_plus_one
    → All IsLow target_plus_one
    → 0 < from_le_bytes threshold
    → from_le_bytes threshold < 2 ^ 255
    → (work : List ℕ) × (work_from_target threshold ≡ some work)
      × (from_le_bytes work ≡ 2 ^ 256 / (from_le_bytes threshold + 1))
      × IsArray 32 work
unfolding work_from_target
work_from_target-eq threshold target_plus_one array plus low positive half =
    let there = holds-false (bytes_discrete threshold zero_u256) (not_zero threshold positive) in
    let (sum, size, bytes) = add_u256_le-eq threshold 1 target_plus_one array.bytes plus in
    let (inverse, size', bytes') = not_u256_le-eq threshold array.bytes in
    let whole : from_le_bytes (not_u256_le threshold) + from_le_bytes threshold + 1 ≡ 2 ^ 256 =
      inverse ∙ rw array.size refl in
    let (quotient, e, value, quotient_array) =
      div_u256_le-eq (not_u256_le threshold) target_plus_one
        (record { size = size' ∙ array.size; bytes = bytes' })
        (record { size = size ∙ array.size; bytes = bytes }) low (omega arith) (omega arith) in
    let exact = work_sum (from_le_bytes threshold) (from_le_bytes (not_u256_le threshold)) whole in
    let top : from_le_bytes quotient ≤ from_le_bytes (not_u256_le threshold) =
      rw value
        (div-le_self (from_le_bytes (not_u256_le threshold)) (from_le_bytes target_plus_one)) in
    let (work, e') =
      add_u256_le-some quotient 1 quotient_array.bytes (omega arith)
        (rw quotient_array.size (omega arith)) in
    let (value', size'', bytes'') = add_u256_le-eq quotient 1 work quotient_array.bytes e' in
    (
      work,
      rw (there, plus, e, e') refl,
      value'
          ∙ ap (λ (n : ℕ). n + 1)
              (value ∙ ap (λ (n : ℕ). from_le_bytes (not_u256_le threshold) / n) sum)
          ∙ exact,
      record { size = size'' ∙ quotient_array.size; bytes = bytes'' },
    )
