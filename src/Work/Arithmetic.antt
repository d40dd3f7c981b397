-- ===== src/Work/Arithmetic.antt =====
-- The byte loops of crates/bitrst-core/src/uint256.rs against arithmetic on numbers.
use bitrst.Base.{
  ℕ, suc, ◌+◌, ◌-◌, ◌*◌, ◌/◌, ◌%◌, ◌^◌, ◌<◌, ◌≤◌, ◌≡◌, refl, ap, List, [], ◌∷◌, length, All, Option,
  none, some, false, ltb, ◌==◌, Bool-cases, inl, inr, lt→ltb, ltb→lt, ltb→le, arith,
}
use native.Mathlib.Nat.{pow-suc, pow-succ', mul_assoc}
use bitrst.Wire.Bytes.{IsByte, from_le_bytes, from_le_bytes-lt}
use bitrst.Work.Uint256.{
  cons_some, add_u256_le, not_u256_le, shl_loop, shl_one_u256_le, sub_loop, sub_u256_le,
}

cons_some-eq :
    (byte : ℕ) (o : Option (List ℕ)) (out : List ℕ)
    → cons_some byte o ≡ some out
    → (rest : List ℕ) × (o ≡ some rest) × (out ≡ byte ∷ rest)
cons_some-eq byte none out h = absurd (ground arith)
cons_some-eq byte (some rest) out h = (rest, refl, ground arith)

-- A sum that comes out is the sum, in as many bytes.
pub add_u256_le-eq :
    (bytes : List ℕ) (addend : ℕ) (out : List ℕ)
    → All IsByte bytes
    → add_u256_le bytes addend ≡ some out
    → (from_le_bytes out ≡ from_le_bytes bytes + addend)
      × (length out ≡ length bytes)
      × All IsByte out
unfolding add_u256_le from_le_bytes
add_u256_le-eq [] addend out h e = elim (Bool-cases (addend == 0)) [
  | inl z ↦ let same : out ≡ [] = ground arith in rw same (ground arith, refl, tt)
  | inr nz ↦ absurd (ground arith)
]
add_u256_le-eq (byte ∷ bytes) addend out (hb, h) e =
    let sum = byte + addend in
    elim (Bool-cases (ltb sum (2 ^ 64))) [
      | inr over ↦ absurd (ground arith)
      | inl fits ↦ elim (Bool-cases (sum / 256 == 0)) [
        | inl done ↦
            let same : out ≡ (sum % 256) ∷ bytes = ground arith in
            rw same (ground arith, refl, (omega arith, h))
        | inr more ↦
            let (rest, e₁, same) =
              cons_some-eq (sum % 256) (add_u256_le bytes (sum / 256)) out (rw (fits, more) at e) in
            let (value, size, bytes') = add_u256_le-eq bytes (sum / 256) rest h e₁ in
            rw same (omega arith, ap suc size, (omega arith, bytes'))
      ]
    ]

-- It comes out if it fits.
pub add_u256_le-some :
    (bytes : List ℕ) (addend : ℕ)
    → All IsByte bytes
    → addend + 255 < 2 ^ 64
    → from_le_bytes bytes + addend < 256 ^ length bytes
    → (out : List ℕ) × (add_u256_le bytes addend ≡ some out)
unfolding add_u256_le from_le_bytes
add_u256_le-some [] addend h small fits = ([], ground arith)
add_u256_le-some (byte ∷ bytes) addend (hb, h) small fits =
    let sum = byte + addend in
    elim (Bool-cases (sum / 256 == 0)) [
      | inl done ↦ ((sum % 256) ∷ bytes, rw (lt→ltb sum (2 ^ 64) (omega arith), done) refl)
      | inr more ↦
          let (out, e) =
            add_u256_le-some bytes (sum / 256) h (omega arith)
              (omega (arith, pow-suc 256 (length bytes))) in
          ((sum % 256) ∷ out, rw (lt→ltb sum (2 ^ 64) (omega arith), more, e) refl)
    ]

pub not_u256_le-eq :
    (bytes : List ℕ)
    → All IsByte bytes
    → (from_le_bytes (not_u256_le bytes) + from_le_bytes bytes + 1 ≡ 256 ^ length bytes)
      × (length (not_u256_le bytes) ≡ length bytes)
      × All IsByte (not_u256_le bytes)
unfolding not_u256_le from_le_bytes
not_u256_le-eq [] h = (omega arith, refl, tt)
not_u256_le-eq (b ∷ bytes) (hb, h) =
    let (value, size, bytes') = not_u256_le-eq bytes h in
    (omega (arith, pow-suc 256 (length bytes)), ap suc size, (omega arith, bytes'))

shl_loop-eq :
    (carry : ℕ) (bytes : List ℕ)
    → All IsByte bytes
    → carry < 2
    → 2 * from_le_bytes bytes + carry < 256 ^ length bytes
    → (from_le_bytes (shl_loop carry bytes) ≡ 2 * from_le_bytes bytes + carry)
      × (length (shl_loop carry bytes) ≡ length bytes)
      × All IsByte (shl_loop carry bytes)
unfolding from_le_bytes
shl_loop-eq carry [] h c fits = (omega arith, refl, tt)
shl_loop-eq carry (b ∷ bytes) (hb, h) c fits =
    let (value, size, bytes') =
      shl_loop-eq (b / 128) bytes h (omega arith) (omega (arith, pow-suc 256 (length bytes))) in
    (omega arith, ap suc size, (omega arith, bytes'))

-- The shift doubles a number whose top bit is clear.
pub shl_one_u256_le-eq :
    (bytes : List ℕ)
    → All IsByte bytes
    → 2 * from_le_bytes bytes < 256 ^ length bytes
    → (from_le_bytes (shl_one_u256_le bytes) ≡ 2 * from_le_bytes bytes)
      × (length (shl_one_u256_le bytes) ≡ length bytes)
      × All IsByte (shl_one_u256_le bytes)
unfolding shl_one_u256_le
shl_one_u256_le-eq bytes h fits =
    let (value, size, bytes') = shl_loop-eq 0 bytes h (omega arith) (omega arith) in
    (omega arith, size, bytes')

-- A byte to which a borrow can be added without wrapping.
abbrev pub IsLow : ℕ → Type 0
IsLow b = b < 255

pub pow-suc-mul : (n c : ℕ) → 256 ^ suc n * c ≡ 256 * (256 ^ n * c)
pow-suc-mul n c = rw (pow-succ' 256 n) (mul_assoc _ _ _)

sub_loop-eq :
    (borrow : ℕ) (left right : List ℕ)
    → length left ≡ length right
    → All IsByte left
    → All IsLow right
    → borrow < 2
    → (from_le_bytes (sub_loop borrow left right).0 + from_le_bytes right + borrow
        ≡ from_le_bytes left + 256 ^ length left * (sub_loop borrow left right).1)
      × ((sub_loop borrow left right).1 < 2)
      × (length (sub_loop borrow left right).0 ≡ length left)
      × All IsByte (sub_loop borrow left right).0
unfolding from_le_bytes
sub_loop-eq borrow [] [] same l r b = (omega arith, b, refl, tt)
sub_loop-eq borrow [] (y ∷ right) same l r b = absurd (omega arith)
sub_loop-eq borrow (x ∷ left) [] same l r b = absurd (omega arith)
sub_loop-eq borrow (x ∷ left) (y ∷ right) same (lx, l) (ry, r) b =
    let whole : (y + borrow) % 256 ≡ y + borrow = omega arith in
    rw whole (elim (Bool-cases (ltb x (y + borrow))) [
      | inl short ↦
          let (value, one, size, bytes) =
            sub_loop-eq 1 left right (omega arith) l r (omega arith) in
          let scaled = pow-suc-mul (length left) (sub_loop 1 left right).1 in
          let below : x < y + borrow = ltb→lt x (y + borrow) short in
          rw short (omega arith, one, ap suc size, (omega arith, bytes))
      | inr enough ↦
          let (value, one, size, bytes) =
            sub_loop-eq 0 left right (omega arith) l r (omega arith) in
          let scaled = pow-suc-mul (length left) (sub_loop 0 left right).1 in
          let above : y + borrow ≤ x = ltb→le x (y + borrow) enough in
          rw enough (omega arith, one, ap suc size, (omega arith, bytes))
    ])

-- No borrow is left if the right number is no greater.
sub_loop-fits :
    (left right : List ℕ)
    → length left ≡ length right
    → All IsByte left
    → All IsLow right
    → from_le_bytes right ≤ from_le_bytes left
    → ((sub_loop 0 left right).1 ≡ 0)
      × (from_le_bytes (sub_loop 0 left right).0 + from_le_bytes right ≡ from_le_bytes left)
      × (length (sub_loop 0 left right).0 ≡ length left)
      × All IsByte (sub_loop 0 left right).0
sub_loop-fits left right same l r h =
    let (value, one, size, bytes) = sub_loop-eq 0 left right same l r (omega arith) in
    let top = from_le_bytes-lt (sub_loop 0 left right).0 bytes in
    elim (Bool-cases ((sub_loop 0 left right).1 == 0)) [
      | inl e ↦
          let none_left : (sub_loop 0 left right).1 ≡ 0 = ground arith in
          let exact : from_le_bytes (sub_loop 0 left right).0 + from_le_bytes right + 0
              ≡ from_le_bytes left + 256 ^ length left * 0 =
            rw none_left at value in
          (none_left, omega arith, size, bytes)
      | inr ne ↦
          let one_left : (sub_loop 0 left right).1 ≡ 1 = ground arith in
          let exact : from_le_bytes (sub_loop 0 left right).0 + from_le_bytes right + 0
              ≡ from_le_bytes left + 256 ^ length left * 1 =
            rw one_left at value in
          let small : from_le_bytes (sub_loop 0 left right).0 < 256 ^ length left =
            rw size at top in
          absurd (omega arith)
    ]

-- A difference comes out if the right number is no greater and none of its bytes is 0xff.
pub sub_u256_le-eq :
    (left right : List ℕ)
    → length left ≡ length right
    → All IsByte left
    → All IsLow right
    → from_le_bytes right ≤ from_le_bytes left
    → (out : List ℕ) × (sub_u256_le left right ≡ some out)
      × (from_le_bytes out ≡ from_le_bytes left - from_le_bytes right)
      × (length out ≡ length left)
      × All IsByte out
unfolding sub_u256_le
sub_u256_le-eq left right same l r h =
    let (none_left, value, size, bytes) = sub_loop-fits left right same l r h in
    ((sub_loop 0 left right).0, rw none_left refl, omega arith, size, bytes)

-- If the lowest byte borrows and the second byte of the right number is 0xff, the borrow is
-- lost: where no other byte of the right number is 0xff and its upper bytes are no greater than
-- those of the left, the difference that comes out is 2^16 too great.
pub sub_u256_le-lost_borrow :
    (l₀ l₁ r₀ : ℕ) (left right : List ℕ)
    → length left ≡ length right
    → All IsByte (l₀ ∷ l₁ ∷ left)
    → All IsLow (r₀ ∷ right)
    → l₀ < r₀
    → from_le_bytes right ≤ from_le_bytes left
    → (out : List ℕ) × (sub_u256_le (l₀ ∷ l₁ ∷ left) (r₀ ∷ 255 ∷ right) ≡ some out)
      × (from_le_bytes out + from_le_bytes (r₀ ∷ 255 ∷ right)
          ≡ from_le_bytes (l₀ ∷ l₁ ∷ left) + 2 ^ 16)
unfolding sub_u256_le from_le_bytes
sub_u256_le-lost_borrow l₀ l₁ r₀ left right same (b₀, (b₁, l)) (y₀, r) short h =
    let (none_left, value, size, bytes) = sub_loop-fits left right same l r h in
    let whole : (r₀ + 0) % 256 ≡ r₀ = omega arith in
    let lost : ltb l₁ 0 ≡ false = ground arith in
    (
      ((l₀ + 256 - r₀) % 256) ∷ ((l₁ + 256 - 0) % 256) ∷ (sub_loop 0 left right).0,
      rw (whole, lt→ltb l₀ r₀ short, lost, none_left) refl,
      omega arith,
    )
