-- ===== src/Chain/Weight.antt =====
-- `ChainWork` of crates/bitrst-core/src/chain.rs as a number of 256 bits.
use bitrst.Base.{
  ℕ, zero, suc, ◌+◌, ◌*◌, ◌/◌, ◌%◌, ◌^◌, ◌≤◌, ◌<◌, ◌≡◌, ◌↔◌, refl, sym, ap, ◌∙◌, List, [], ◌∷◌,
  length, All, Option, none, some, true, ok, ok_or, Bool-cases, >>=-eq-ok, inl, inr, arith,
}
use bitrst.Wire.Bytes.{IsByte, IsArray, from_le_bytes}
use bitrst.Base.Options.{◌>>=◌, >>=-eq-some}
use bitrst.Work.Uint256.{
  set_in, set_bit, set_lowest, bit_of, bit_is_set, shl_one_u256_le, sub_u256_le, div_step, div_loop,
  div_u256_le, work_from_target, zero_u256, cmp_le, is_greater, is_less, not_u256_le, add_u256_le,
}
use bitrst.Work.Bits.{with_bit-IsByte}
use bitrst.Work.Compare.{cmp_le-order}
use bitrst.Work.Arithmetic.{pow-suc-mul, add_u256_le-eq}
use bitrst.Base.Keys.{bytes_discrete, holds}
use bitrst.Work.Target.{from_bits, to_work}
use bitrst.Chain.Types.{ChainError, block_work, invalid_proof_of_work}
use bitrst.Chain.Work.{ChainWork, add_loop, add, at_most, as_work}

abbrev pub value : ChainWork → ℕ
value work = from_le_bytes work.bytes

abbrev pub IsWork : ChainWork → Type 0
IsWork work = IsArray 32 work.bytes

add_loop-eq :
    (carry : ℕ) (left right : List ℕ)
    → length left ≡ length right
    → All IsByte left
    → All IsByte right
    → carry ≤ 1
    → (out : ℕ) × (from_le_bytes (add_loop carry left right) + 256 ^ length left * out
        ≡ from_le_bytes left + from_le_bytes right + carry)
      × (length (add_loop carry left right) ≡ length left)
      × All IsByte (add_loop carry left right)
unfolding add_loop from_le_bytes
add_loop-eq carry [] [] same l r small = (carry, omega arith, refl, tt)
add_loop-eq carry [] (b ∷ right) same l r small = absurd (omega arith)
add_loop-eq carry (a ∷ left) [] same l r small = absurd (omega arith)
add_loop-eq carry (a ∷ left) (b ∷ right) same (ha, l) (hb, r) small =
    let sum = a + b + carry in
    let (out, value_, size, bytes) =
      add_loop-eq (sum / 256) left right (omega arith) l r (omega arith) in
    let weight = pow-suc-mul (length left) out in
    (out, omega arith, ap suc size, (omega arith, bytes))

-- The sum of two works is the sum of the numbers, if that fits in 256 bits; the order of works
-- is that of the numbers.
pub add-value :
    (left right : ChainWork)
    → IsWork left
    → IsWork right
    → value left + value right < 2 ^ 256
    → (value (add left right) ≡ value left + value right) × IsWork (add left right)
unfolding add
add-value left right l r fits =
    let (out, sum, size, bytes) =
      add_loop-eq 0 left.bytes right.bytes (l.size ∙ sym r.size) l.bytes r.bytes (omega arith) in
    let width = l.size in
    let sum' : value (add left right) + 256 ^ 32 * out ≡ value left + value right + 0 =
      rw width at sum in
    (omega arith, record { size = size ∙ width; bytes = bytes })

pub at_most_iff :
    (left right : ChainWork)
    → IsWork left
    → IsWork right
    → (at_most left right ≡ true) ↔ (value left ≤ value right)
unfolding at_most
at_most_iff left right l r =
    rw (cmp_le-order left.bytes right.bytes (l.size ∙ sym r.size) l.bytes r.bytes)
      (λ m. ground arith, λ le. ground arith)

-- What the division gives is 32 bytes, whatever it is given.
set_in-bytes :
    (bytes : List ℕ) (index k : ℕ)
    → All IsByte bytes
    → k < 8
    → (length (set_in bytes index k) ≡ length bytes) × All IsByte (set_in bytes index k)
set_in-bytes [] index k h small = (refl, tt)
set_in-bytes (b ∷ bytes) zero k (hb, h) small = elim (Bool-cases (bit_of b k)) [
  | inl on ↦ rw on (refl, (hb, h))
  | inr off ↦ rw off (refl, (with_bit-IsByte k b small hb off, h))
]
set_in-bytes (b ∷ bytes) (suc index) k (hb, h) small =
    let (size, bytes') = set_in-bytes bytes index k h small in (ap suc size, (hb, bytes'))

set_bit-IsArray : (bytes : List ℕ) (bit : ℕ) → IsArray 32 bytes → IsArray 32 (set_bit bytes bit)
unfolding set_bit
set_bit-IsArray bytes bit array =
    let (size, bytes') = set_in-bytes bytes (bit / 8) (bit % 8) array.bytes (omega arith) in
    record { size = size ∙ array.size; bytes = bytes' }

div_step-IsArray :
    (dividend divisor : List ℕ) (bit : ℕ) (quotient remainder : List ℕ) (after : List ℕ × List ℕ)
    → IsArray 32 quotient
    → div_step dividend divisor bit (quotient, remainder) ≡ some after
    → IsArray 32 after.0
unfolding div_step
div_step-IsArray dividend divisor bit quotient remainder after array e =
    let remainder' = set_lowest (bit_is_set dividend bit) (shl_one_u256_le remainder) in
    elim (Bool-cases (is_greater (cmp_le divisor remainder'))) [
      | inl bigger ↦
          let e' : some (quotient, remainder') ≡ some after = rw bigger at e in
          let same : after.0 ≡ quotient = kept quotient remainder' after e' in rw same array
      | inr fits ↦
          let e' : (sub_u256_le remainder' divisor
                >>= (λ difference. some (set_bit quotient bit, difference)))
              ≡ some after =
            rw fits at e in
          let next : List ℕ → Option (List ℕ × List ℕ) =
            λ difference. some (set_bit quotient bit, difference) in
          let (difference, e₁, e₂) = >>=-eq-some (sub_u256_le remainder' divisor) next after e' in
          let same : after.0 ≡ set_bit quotient bit =
            kept (set_bit quotient bit) difference after e₂ in
          rw same (set_bit-IsArray quotient bit array)
    ]
  where
    kept : (q r : List ℕ) (a : List ℕ × List ℕ) → some (q, r) ≡ some a → a.0 ≡ q
    kept q r a h = ground arith

div_loop-IsArray :
    (dividend divisor : List ℕ) (bits : ℕ) (state after : List ℕ × List ℕ)
    → IsArray 32 state.0
    → div_loop dividend divisor bits state ≡ some after
    → IsArray 32 after.0
unfolding div_loop
div_loop-IsArray dividend divisor zero state after array e =
    let same : after ≡ state = ground arith in rw same array
div_loop-IsArray dividend divisor (suc bit) (quotient, remainder) after array e =
    let (next, e₁, e₂) =
      >>=-eq-some (div_step dividend divisor bit (quotient, remainder)) _ after e in
    div_loop-IsArray dividend divisor bit next after
      (div_step-IsArray dividend divisor bit quotient remainder next array e₁) e₂

zero_u256-IsArray : IsArray 32 zero_u256
zero_u256-IsArray = record { size = refl; bytes = omega arith }

div_u256_le-IsArray :
    (dividend divisor quotient : List ℕ)
    → div_u256_le dividend divisor ≡ some quotient
    → IsArray 32 quotient
unfolding div_u256_le
div_u256_le-IsArray dividend divisor quotient e =
    elim (Bool-cases (holds (bytes_discrete divisor zero_u256))) [
      | inl by_zero ↦ let n : none ≡ some quotient = rw by_zero at e in absurd (ground arith)
      | inr fine ↦ elim (Bool-cases (is_less (cmp_le dividend divisor))) [
        | inl small ↦
            let e' : some zero_u256 ≡ some quotient = rw (fine, small) at e in
            let same : quotient ≡ zero_u256 = ground arith in rw same zero_u256-IsArray
        | inr large ↦
            let e' : (div_loop dividend divisor 256 (zero_u256, zero_u256)
                  >>= (λ state. some state.0))
                ≡ some quotient =
              rw (fine, large) at e in
            let (state, e₁, e₂) =
              >>=-eq-some (div_loop dividend divisor 256 (zero_u256, zero_u256)) _ quotient e' in
            let same : quotient ≡ state.0 = ground arith in
            rw same (
              div_loop-IsArray dividend divisor 256 (zero_u256, zero_u256) state zero_u256-IsArray
                e₁)
      ]
    ]

work_from_target-IsArray :
    (threshold work : List ℕ) → work_from_target threshold ≡ some work → IsArray 32 work
unfolding work_from_target
work_from_target-IsArray threshold work e =
    elim (Bool-cases (holds (bytes_discrete threshold zero_u256))) [
      | inl empty ↦ let n : none ≡ some work = rw empty at e in absurd (ground arith)
      | inr fine ↦
          let e' : (add_u256_le threshold 1 >>= (λ plus.
            div_u256_le (not_u256_le threshold) plus >>= (λ quotient. add_u256_le quotient 1)))
              ≡ some work =
            rw fine at e in
          let (plus, e₁, e₂) = >>=-eq-some (add_u256_le threshold 1) _ work e' in
          let (quotient, e₃, e₄) =
            >>=-eq-some (div_u256_le (not_u256_le threshold) plus) _ work e₂ in
          let array = div_u256_le-IsArray (not_u256_le threshold) plus quotient e₃ in
          let (sum, size, bytes) = add_u256_le-eq quotient 1 work array.bytes e₄ in
          record { size = size ∙ array.size; bytes = bytes }
    ]

ok_or-some : {A : Type 0} (o : Option A) (e : ChainError) (a : A) → ok_or o e ≡ ok a → o ≡ some a
ok_or-some none e a h = absurd (ground arith)
ok_or-some (some b) e a h = ground arith

-- The work of a block is 32 bytes.
pub block_work-IsWork : (bits : ℕ) (own : ChainWork) → block_work bits ≡ ok own → IsWork own
unfolding block_work to_work
block_work-IsWork bits own e =
    let (target, e₁, e₂) = >>=-eq-ok (ok_or (from_bits bits) invalid_proof_of_work) _ e in
    let (work, e₃, e₄) = >>=-eq-ok (ok_or (to_work target) invalid_proof_of_work) _ e₂ in
    let same : own ≡ as_work work = ground arith in
    rw same (
      work_from_target-IsArray target.threshold work
        (ok_or-some (to_work target) invalid_proof_of_work work e₃))
