-- ===== src/Work/Compare.antt =====
-- `cmp_le` of crates/bitrst-core/src/uint256.rs against the order of the numbers.
use bitrst.Base.{
  ℕ, ◌+◌, ◌*◌, ◌<◌, ◌≡◌, refl, sym, ap, ◌∙◌, List, [], ◌∷◌, reverse, length, All, ltb,
  if◌then◌else◌, Bool-cases, inl, inr, ltb→lt, arith,
}
use mathlib.Core.List.{reverse_aux}
use bitrst.Wire.Bytes.{IsByte, from_le_bytes}
use bitrst.Work.Uint256.{Ordering, less, equal, greater, compare_bytes, cmp_le}

-- The order of two numbers.
abbrev pub order : ℕ → ℕ → Ordering
order a b = if ltb a b then less else (if ltb b a then greater else equal)

-- The number whose bytes, highest first, are `high` and then the list.
abbrev value_from : ℕ → List ℕ → ℕ
value_from high [] = high
value_from high (b ∷ bytes) = value_from (high * 256 + b) bytes

value_from-reverse_aux :
    (bytes rest : List ℕ)
    → value_from 0 (reverse_aux bytes rest) ≡ value_from (from_le_bytes bytes) rest
unfolding from_le_bytes
value_from-reverse_aux [] rest = refl
value_from-reverse_aux (b ∷ bytes) rest =
    value_from-reverse_aux bytes (b ∷ rest) ∙ ap (λ (n : ℕ). value_from n rest) (omega arith)

value_from-reverse : (bytes : List ℕ) → value_from 0 (reverse bytes) ≡ from_le_bytes bytes
value_from-reverse bytes = value_from-reverse_aux bytes []

value_from-lt :
    (high high' : ℕ) (left right : List ℕ)
    → length left ≡ length right
    → All IsByte left
    → All IsByte right
    → high < high'
    → value_from high left < value_from high' right
value_from-lt high high' [] [] same l r h = h
value_from-lt high high' [] (b ∷ right) same l r h = absurd (omega arith)
value_from-lt high high' (a ∷ left) [] same l r h = absurd (omega arith)
value_from-lt high high' (a ∷ left) (b ∷ right) same (la, l) (rb, r) h =
    value_from-lt (high * 256 + a) (high' * 256 + b) left right (omega arith) l r (omega arith)

order-less : (a b : ℕ) → a < b → order a b ≡ less
order-less a b h = ground arith

order-greater : (a b : ℕ) → b < a → order a b ≡ greater
order-greater a b h = ground arith

order-equal : (a : ℕ) → order a a ≡ equal
order-equal a = ground arith

compare_bytes-order :
    (high : ℕ) (left right : List ℕ)
    → length left ≡ length right
    → All IsByte left
    → All IsByte right
    → compare_bytes left right ≡ order (value_from high left) (value_from high right)
compare_bytes-order high [] [] same l r = sym (order-equal high)
compare_bytes-order high [] (b ∷ right) same l r = absurd (omega arith)
compare_bytes-order high (a ∷ left) [] same l r = absurd (omega arith)
compare_bytes-order high (a ∷ left) (b ∷ right) same (la, l) (rb, r) = elim (Bool-cases (ltb a b)) [
  | inl below ↦
      let h : a < b = ltb→lt a b below in
      rw below (
        sym (
          order-less _ _ (
            value_from-lt (high * 256 + a) (high * 256 + b) left right (omega arith) l r
              (omega arith))))
  | inr not_below ↦ elim (Bool-cases (ltb b a)) [
    | inl above ↦
        let h : b < a = ltb→lt b a above in
        rw (not_below, above)
          (sym (
            order-greater _ _ (
              value_from-lt (high * 256 + b) (high * 256 + a) right left (omega arith) r l
                (omega arith))))
    | inr not_above ↦
        let e : a ≡ b = ground arith in
        rw (not_below, not_above, e)
          (compare_bytes-order (high * 256 + b) left right (omega arith) l r)
  ]
]

length-reverse_aux :
    (bytes rest : List ℕ) → length (reverse_aux bytes rest) ≡ length bytes + length rest
length-reverse_aux [] rest = omega arith
length-reverse_aux (b ∷ bytes) rest = length-reverse_aux bytes (b ∷ rest) ∙ omega arith

All-reverse_aux :
    (bytes rest : List ℕ) → All IsByte bytes → All IsByte rest → All IsByte (reverse_aux bytes rest)
All-reverse_aux [] rest h k = k
All-reverse_aux (b ∷ bytes) rest (hb, h) k = All-reverse_aux bytes (b ∷ rest) h (hb, k)

-- Comparing two arrays of one length is comparing the numbers they stand for.
pub cmp_le-order :
    (left right : List ℕ)
    → length left ≡ length right
    → All IsByte left
    → All IsByte right
    → cmp_le left right ≡ order (from_le_bytes left) (from_le_bytes right)
unfolding cmp_le
cmp_le-order left right same l r =
    rw (sym (value_from-reverse left), sym (value_from-reverse right))
      (compare_bytes-order 0 (reverse left) (reverse right)
        (length-reverse_aux left [] ∙ (omega arith) ∙ sym (length-reverse_aux right []))
        (All-reverse_aux left [] l tt) (All-reverse_aux right [] r tt))
