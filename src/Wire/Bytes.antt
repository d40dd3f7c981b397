-- ===== src/Wire/Bytes.antt =====
-- Rust's `to_le_bytes` and `from_le_bytes` at every width; a byte string is a list of numbers.
use bitrst.Base.{
  ℕ, zero, suc, ◌+◌, ◌*◌, ◌/◌, ◌%◌, ◌^◌, ◌<◌, ◌≡◌, refl, ap, ap₂, List, [], ◌∷◌, length, All, arith,
}
use native.Mathlib.Nat.{pow-suc}

abbrev pub IsByte : ℕ → Type 0
IsByte b = b < 256

-- `[u8; n]`
pub record IsArray (n : ℕ) (bs : List ℕ) : Type 0 where
  pub size : length bs ≡ n
  pub bytes : All IsByte bs

-- The `n` low bytes of `v`, lowest first.
unfoldable pub to_le_bytes : ℕ → ℕ → List ℕ
to_le_bytes zero v = []
to_le_bytes (suc n) v = (v % 256) ∷ to_le_bytes n (v / 256)

unfoldable pub from_le_bytes : List ℕ → ℕ
from_le_bytes [] = 0
from_le_bytes (b ∷ bs) = b + 256 * from_le_bytes bs

pub length-to_le_bytes : (n v : ℕ) → length (to_le_bytes n v) ≡ n
unfolding to_le_bytes
length-to_le_bytes zero v = refl
length-to_le_bytes (suc n) v = ap suc (length-to_le_bytes n (v / 256))

pub to_le_bytes-IsByte : (n v : ℕ) → All IsByte (to_le_bytes n v)
unfolding to_le_bytes
to_le_bytes-IsByte zero v = tt
to_le_bytes-IsByte (suc n) v = (omega arith, to_le_bytes-IsByte n (v / 256))

pub from_le_bytes-to_le_bytes : (n v : ℕ) → v < 256 ^ n → from_le_bytes (to_le_bytes n v) ≡ v
unfolding to_le_bytes from_le_bytes
from_le_bytes-to_le_bytes zero v h = omega arith
from_le_bytes-to_le_bytes (suc n) v h =
    omega
      (arith, pow-suc 256 n, from_le_bytes-to_le_bytes n (v / 256) (omega (arith, pow-suc 256 n)))

pub from_le_bytes-lt : (bs : List ℕ) → All IsByte bs → from_le_bytes bs < 256 ^ length bs
unfolding from_le_bytes
from_le_bytes-lt [] h = omega arith
from_le_bytes-lt (b ∷ bs) h = omega (arith, pow-suc 256 (length bs), from_le_bytes-lt bs h.1)

pub to_le_bytes-from_le_bytes :
    (bs : List ℕ) → All IsByte bs → to_le_bytes (length bs) (from_le_bytes bs) ≡ bs
unfolding to_le_bytes from_le_bytes
to_le_bytes-from_le_bytes [] h = refl
to_le_bytes-from_le_bytes (b ∷ bs) h =
    let e : (b + 256 * from_le_bytes bs) / 256 ≡ from_le_bytes bs = omega arith in
    ap₂ ◌∷◌ (omega arith) (rw e (to_le_bytes-from_le_bytes bs h.1))
