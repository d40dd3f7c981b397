-- ===== src/Chain/Work.antt =====
-- `ChainWork` and `block_work` of crates/bitrst-core/src/chain.rs.
use bitrst.Base.{ℕ, ◌+◌, ◌/◌, ◌%◌, List, [], ◌∷◌, Bool, not}
use bitrst.Work.Uint256.{cmp_le, is_greater, zero_u256}

pub record ChainWork : Type 0 where
  pub bytes : List ℕ

abbrev pub default : ChainWork
default = record { bytes = zero_u256 }

-- The loop of `add`, byte by byte with a carry; what is carried out of the last byte is dropped.
unfoldable pub add_loop : ℕ → List ℕ → List ℕ → List ℕ
add_loop carry [] right = []
add_loop carry (l ∷ left) [] = []
add_loop carry (l ∷ left) (r ∷ right) =
    ((l + r + carry) % 256) ∷ add_loop ((l + r + carry) / 256) left right

unfoldable pub add : ChainWork → ChainWork → ChainWork
add left right = record { bytes = add_loop 0 left.bytes right.bytes }

-- `left <= right`
unfoldable pub at_most : ChainWork → ChainWork → Bool
at_most left right = not (is_greater (cmp_le left.bytes right.bytes))

abbrev pub as_work : List ℕ → ChainWork
as_work bytes = record { bytes = bytes }
