-- ===== src/Chain/Header.antt =====
-- The checks of crates/bitrst-core/src/chain.rs on a header: work, merkle root, coinbase, time
-- and difficulty.
use bitrst.Base.{
  ℕ, suc, ◌-◌, ◌/◌, ◌%◌, List, [], ◌∷◌, reverse, length, get_elem?, Option, none, some, Bool, false,
  not, ◌||◌, leb, ◌==◌, if◌then◌else◌, Result, ok, err, ◌>>=◌, ◌>>◌, ok_or, reject_if, map_err,
}
use bitrst.Crypto.{Primitives}
use bitrst.Block.Types.{Block}
use bitrst.Block.Encode.{hash}
use bitrst.Block.Deserialize.{header_merkle_root_matches}
use bitrst.Transaction.Types.{Transaction}
use bitrst.Utxo.Types.{is_coinbase}
use bitrst.Work.Target.{from_bits, meets}
use bitrst.Work.Difficulty.{
  difficulty_adjustment_interval, max_compact_bits, adjust_bits, valid_block_time,
}
use bitrst.Chain.Types
use bitrst.Chain.Types.{Chain, ChainError, Fault, failed, panicked}
use bitrst.Chain.Validate.{past_times, validate_block_transactions_for_utxo}

-- What a call of the source returns, where it does not panic.
abbrev pub returned : {A : Type 0} → Result ChainError A → Result Fault A
returned = map_err failed

-- `times.sort_unstable()`
unfoldable pub put_in_order : ℕ → List ℕ → List ℕ
put_in_order time [] = time ∷ []
put_in_order time (t ∷ times) =
    let rest = put_in_order time times in if leb time t then time ∷ t ∷ times else t ∷ rest

unfoldable pub sort : List ℕ → List ℕ
sort [] = []
sort (time ∷ times) = put_in_order time (sort times)

abbrev or_zero : Option ℕ → ℕ
or_zero none = 0
or_zero (some n) = n

-- The element in the middle of the sorted times; 0 if there are none.
unfoldable pub median : List ℕ → ℕ
median times = or_zero (get_elem? (sort times) (length times / 2))

unfoldable pub median_past_time_before : Chain → List ℕ → ℕ
median_past_time_before chain block_hash = median (past_times 11 chain block_hash)

abbrev tip_bits : List Block → Result ChainError ℕ
tip_bits [] = err Types.no_active_tip
tip_bits (tip ∷ blocks) = ok tip.header.bits

-- `self.blocks[i]`; the blocks in ascending order.
unfoldable pub block_at : List Block → ℕ → Result Fault Block
block_at ascending i = ok_or (get_elem? ascending i) panicked

unfoldable pub retarget : List Block → ℕ → Result Fault ℕ
retarget ascending height =
    let period_start = height - difficulty_adjustment_interval in
    if leb (length ascending) period_start then ok max_compact_bits else (do
      first ← block_at ascending period_start
      last ← block_at ascending (height - 1)
      returned (
          map_err Types.difficulty
            (adjust_bits last.header.bits (last.header.time - first.header.time))))

-- A `debug_assert_eq!` on the number of blocks is left out.
unfoldable pub expected_bits : Chain → ℕ → ℕ → Result Fault ℕ
expected_bits chain height block_bits =
    if height == 0
    then ok block_bits
    else (if not (height % difficulty_adjustment_interval == 0)
        then returned (tip_bits chain.blocks)
        else retarget (reverse chain.blocks) height)

unfoldable pub coinbase_count : List Transaction → ℕ
coinbase_count [] = 0
coinbase_count (tx ∷ txs) =
    let rest = coinbase_count txs in if is_coinbase tx then suc rest else rest

-- Only read if there is a coinbase, so that there is a first transaction.
abbrev first_is_coinbase : List Transaction → Bool
first_is_coinbase [] = false
first_is_coinbase (tx ∷ txs) = is_coinbase tx

-- The check of the time, which needs both the parent and its hash.
unfoldable pub check_time :
    Block → Option Block → Option (List ℕ) → Chain → Result ChainError (Unit {0})
check_time block none parent_hash chain = ok tt
check_time block (some parent) none chain = ok tt
check_time block (some parent) (some parent_hash) chain =
    let median_past = median_past_time_before chain parent_hash in
    reject_if (not (valid_block_time block.header.time median_past chain.network_time))
      (Types.invalid_timestamp block.header.time median_past chain.network_time)

module _ (crypto : Primitives) where
  -- The checks that do not look at the chain.
  unfoldable pub check_contents : Block → Result ChainError (Unit {0})
  check_contents block = do
    target ← ok_or (from_bits block.header.bits) Types.invalid_proof_of_work
    reject_if (not (meets target (hash crypto block))) Types.invalid_proof_of_work
    reject_if (not (header_merkle_root_matches crypto block)) Types.merkle_root_mismatch
    reject_if
        (not (coinbase_count block.transactions == 1) || not (first_is_coinbase block.transactions))
        (Types.invalid_coinbase_count (coinbase_count block.transactions))

  unfoldable pub validate_block_header_for_parent :
      Block → Option Block → Option (List ℕ) → ℕ → Chain → Result Fault (Unit {0})
  validate_block_header_for_parent block parent parent_hash height chain = do
    returned (check_contents block)
    returned (check_time block parent parent_hash chain)
    expected ← expected_bits chain height block.header.bits
    reject_if (not (block.header.bits == expected))
        (failed (Types.unexpected_bits height expected block.header.bits))

  unfoldable pub validate_block_for_parent :
      Block → Option Block → Option (List ℕ) → ℕ → Chain → Result Fault (Unit {0})
  validate_block_for_parent block parent parent_hash height chain = do
    validate_block_header_for_parent block parent parent_hash height chain
    returned (validate_block_transactions_for_utxo crypto block chain.utxo)
