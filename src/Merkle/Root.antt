-- ===== src/Merkle/Root.antt =====
-- `merkle_root` of crates/bitrst-core/src/merkle.rs.
use bitrst.Base.{
  ℕ, zero, suc, List, [], ◌∷◌, ◌++◌, length, Option, none, some, ◌||◌, ltb, ◌==◌, if◌then◌else◌,
}
use bitrst.Crypto.{Primitives, sha256d}
use bitrst.Limits.{max_transactions_per_block}

module _ (crypto : Primitives) where
  -- One pass over `level.chunks(2)`: a chunk of one is paired with itself.
  unfoldable pub next_level : List (List ℕ) → List (List ℕ)
  next_level [] = []
  next_level (left ∷ []) = sha256d crypto (left ++ left) ∷ []
  next_level (left ∷ right ∷ level) = sha256d crypto (left ++ right) ∷ next_level level

  -- `while level.len() > 1`; `none` means that the fuel ran out.
  unfoldable pub merkle_loop : ℕ → List (List ℕ) → Option (List (List ℕ))
  merkle_loop zero level = none
  merkle_loop (suc fuel) level =
      let rest = merkle_loop fuel (next_level level) in
      if ltb 1 (length level) then rest else some level

  -- `Some(level[0])`
  abbrev pub head_of : Option (List (List ℕ)) → Option (List ℕ)
  head_of none = none
  head_of (some []) = none
  head_of (some (root ∷ level)) = some root

  -- A level is at most two thirds of the one below, so its length is fuel enough.
  unfoldable pub merkle_root : List (List ℕ) → Option (List ℕ)
  merkle_root txids =
      if length txids == 0 || ltb max_transactions_per_block (length txids)
      then none
      else head_of (merkle_loop (length txids) txids)
