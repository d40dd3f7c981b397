-- ===== src/Tests/Chains.antt =====
-- A first block, the chain that starts with it, and blocks on top.
use bitrst.Base.{
  inl, inr, sym, ap, ◌∙◌, ℕ, ◌+◌, ◌*◌, ◌%◌, ◌^◌, ◌≤◌, ◌≡◌, refl, List, [], ◌∷◌, replicate, some,
  none, ok, err, arith,
}
use bitrst.Base.Int.{pos}
use bitrst.Wire.Bytes.{to_le_bytes, length-to_le_bytes, to_le_bytes-IsByte}
use bitrst.Crypto.{Primitives}
use bitrst.Transaction.Types.{coinbase}
use bitrst.Transaction.Encode.{txid, serialized_size}
use bitrst.Base.Int.{i32_bits}
use bitrst.Base.Map
use bitrst.Block.Types.{Block, merkle_root_from_transactions}
use bitrst.Block.Encode.{hash, hash_header, serialize_header, copy_at}
use bitrst.Block.Encode as Encode
use bitrst.Block.Deserialize.{header_merkle_root_matches}
use bitrst.Merkle.Root.{merkle_root, merkle_loop, next_level}
use bitrst.Utxo.Validate.{
  validate_transaction, validate_output_sum, input_sum, output_sum, output_sum_from,
}
use bitrst.Utxo.Types.{new, checked_add}
use bitrst.Utxo.Apply.{apply_transaction, spend_inputs, create_outputs}
use bitrst.Store.{put_block}
use bitrst.Work.Target.{from_bits, meets, compare_internal_hash, to_work}
use bitrst.Work.Uint256.{
  cmp_le, work_from_target, add_u256_le, not_u256_le, div_u256_le, div_loop, div_step, sub_u256_le,
  shl_one_u256_le, bit_is_set, set_bit,
}
use bitrst.Chain.Work.{ChainWork}
use bitrst.Chain.Validate.{
  validate_block_limits, check_scripts, check_input_scripts, check_output_scripts,
  check_transaction, check_transactions, validate_block_transactions_for_utxo,
}
use bitrst.Chain.Header.{
  validate_block_for_parent, validate_block_header_for_parent, check_contents, coinbase_count,
  check_time, expected_bits,
}
use bitrst.Chain.Connect.{blank}
use bitrst.Chain.Attach.{publish, apply_all}
use bitrst.Base.Keys.{bytes_discrete}
use bitrst.Wire.Bytes.{from_le_bytes}
use bitrst.Chain.Types
use bitrst.Chain.Types.{BlockMeta, failed}
use bitrst.Chain.Attach.{disconnect_tip_block}
use bitrst.Chain.Connect.{connect_one, connect_block, check_new, connect_to_parent, place}
use bitrst.Chain.Index.{find, entry-cases}
use bitrst.Chain.Active.{entry_for}
use bitrst.Chain.Weight.{value}
use bitrst.Chain.Heaviest.{Heaviest, Roomy, HeavyEnds, connect_one-Heaviest}
use bitrst.Chain.Reorged.{Ends}
use bitrst.Chain.WellFormed.{connect_block-WellFormed}
use bitrst.Chain.Genesis.{none_found, start-Heaviest}
use bitrst.Chain.Action.{◌>>◌, lift}
use bitrst.Chain.Reads.{has_block_hash}
use bitrst.Chain.Rollback.{Unmoved, connect_one-Unmoved}
use bitrst.Chain.Undo.{AllFresh, Undone, disconnect_tip_block-attach}
use bitrst.Chain.OrphanPool.{Bounded, connect_block-Bounded}
use bitrst.Chain.Finishes.{Finished}
use bitrst.Chain.Queue.{Under, connect_block-Finished}
use bitrst.Tests.Codec.{program}
use bitrst.Tests.Ledger.{lookups}
use bitrst.Journal.Log
use bitrst.Journal.Disconnected
use bitrst.Chain.Types.{Chain, Fault, block_work}
use bitrst.Chain.Attach.{attach}
use bitrst.Chain.Connect.{start}

-- A digest by a polynomial, small enough to meet an easy target.
abbrev mix : ℕ → List ℕ → ℕ
mix acc [] = acc
mix acc (b ∷ bs) = mix ((acc * 31 + b + 1) % 2 ^ 60) bs

abbrev seal : Primitives
seal = record {
  sha256 = λ bs. to_le_bytes 32 (mix 7 bs);
  ripemd160 = λ bs. to_le_bytes 20 (mix 7 bs);
  verify_ecdsa = λ signature pubkey sighash. bitrst.Base.false;
  sha256_array = λ bs. record {
    size = length-to_le_bytes 32 (mix 7 bs);
    bytes = to_le_bytes-IsByte 32 (mix 7 bs);
  };
  ripemd160_array = λ bs. record {
    size = length-to_le_bytes 20 (mix 7 bs);
    bytes = to_le_bytes-IsByte 20 (mix 7 bs);
  };
}

abbrev genesis : Block
genesis = record {
  header = record {
    version = pos 1;
    prev_blockhash = replicate 32 0;
    merkle_root = txid seal (coinbase 0 50);
    time = 1_231_006_505;
    bits = 0x1f00_ffff;
    nonce = 0;
  };
  transactions = coinbase 0 50 ∷ [];
}

abbrev root : List ℕ
root = hash seal genesis

abbrev clock : ℕ
clock = 1_231_006_505

abbrev one_block : ChainWork
one_block = record { bytes = 1 ∷ 0 ∷ 1 ∷ replicate 29 0 }

abbrev started : Chain
started =
    record (attach seal genesis 0 one_block (blank seal clock Log.default Disconnected.default)) {
      total_work = one_block;
    }

abbrev child : Block
child = record {
  header = record {
    version = pos 1;
    prev_blockhash = root;
    merkle_root = txid seal (coinbase 1 50);
    time = 1_231_006_600;
    bits = 0x1f00_ffff;
    nonce = 0;
  };
  transactions = coinbase 1 50 ∷ [];
}

-- The block without work.
abbrev idle : Block
idle = record child { header = record child.header { bits = 0 } }

unfoldable hashing : Unit {0}
unfolding program lookups hash_header serialize_header copy_at i32_bits coinbase serialized_size
hashing = tt

unfoldable chaining : Unit {0}
unfolding hashing attach publish Log.push put_block apply_all apply_transaction spend_inputs
    create_outputs Map.insert Map.remove
chaining = tt

started_runs : start seal genesis clock Log.default Disconnected.default ≡ ok started
unfolding chaining start validate_block_limits check_scripts check_input_scripts
    check_output_scripts Encode.serialized_size validate_block_for_parent
    validate_block_header_for_parent check_contents from_bits meets compare_internal_hash cmp_le
    header_merkle_root_matches merkle_root_from_transactions merkle_root merkle_loop next_level
    coinbase_count check_time expected_bits validate_block_transactions_for_utxo check_transactions
    check_transaction validate_transaction validate_output_sum input_sum output_sum output_sum_from
    checked_add block_work to_work work_from_target add_u256_le not_u256_le div_u256_le div_loop
    div_step sub_u256_le shl_one_u256_le bit_is_set set_bit
started_runs = refl

started-Heaviest :
    Heaviest seal root started × (block_work genesis.header.bits ≡ ok started.total_work)
started-Heaviest =
    start-Heaviest seal genesis clock Log.default Disconnected.default started started_runs

start-Heaviest_example :
    Heaviest seal root started × (block_work genesis.header.bits ≡ ok started.total_work)
start-Heaviest_example =
    start-Heaviest seal genesis clock Log.default Disconnected.default started started_runs

first_entry : BlockMeta
first_entry =
    entry_for seal root genesis 0 one_block (blank seal clock Log.default Disconnected.default)

only_genesis :
    (id : List ℕ) (meta : BlockMeta) → find id started.known ≡ some meta → first_entry ≡ meta
unfolding attach publish first_entry
only_genesis id meta e = elim (entry-cases root id first_entry meta [] e) [
  | inl (at, same) ↦ same
  | inr old ↦ absurd (none_found id meta old)
]

child-Roomy : Roomy seal root child started
unfolding first_entry from_le_bytes
child-Roomy parent own found worked =
    let same = only_genesis child.header.prev_blockhash parent found in
    let a : ok started.total_work ≡ ok own = sym started-Heaviest.1 ∙ worked in
    let own≡ : one_block ≡ own = ground arith in
    let left : value parent.work ≡ 65537 = ap (λ (m : BlockMeta). value m.work) (sym same) in
    let right : value own ≡ 65537 = ap value (sym own≡) in omega arith

connect_one-Heaviest_example : HeavyEnds seal root (connect_one seal child started)
connect_one-Heaviest_example =
    connect_one-Heaviest seal root child started started-Heaviest.0 child-Roomy

connect_block-WellFormed_example : Ends seal root (connect_block seal child started)
connect_block-WellFormed_example =
    connect_block-WellFormed seal root child started started-Heaviest.0.well_formed

idle_fails : connect_one seal idle started ≡ (started, err (failed Types.invalid_proof_of_work))
unfolding chaining connect_one ◌>>◌ lift check_new validate_block_limits Encode.serialized_size
    check_scripts check_input_scripts check_output_scripts has_block_hash connect_to_parent place
    validate_block_for_parent validate_block_header_for_parent check_contents from_bits
idle_fails = refl

connect_one-Unmoved_example : Unmoved started started
connect_one-Unmoved_example =
    connect_one-Unmoved seal idle started started Types.invalid_proof_of_work idle_fails

child_fresh : AllFresh seal started.utxo child.transactions
unfolding chaining new
child_fresh = (λ i lt. refl, tt)

child_inactive : Map.get bytes_discrete (hash seal child) started.active_hashes ≡ none
unfolding chaining
child_inactive = refl

disconnect_tip_block-attach_example :
    Undone seal started (disconnect_tip_block seal (attach seal child 1 one_block started))
disconnect_tip_block-attach_example =
    disconnect_tip_block-attach seal child 1 one_block started child_fresh child_inactive

no_orphans : Bounded started
unfolding attach publish
no_orphans = omega arith

connect_block-Bounded_example : Bounded (connect_block seal child started).0
connect_block-Bounded_example = connect_block-Bounded seal child started no_orphans

started_low : Under 258 started.known
unfolding first_entry
started_low id meta e =
    let low : meta.height ≡ 0 = ap (λ (m : BlockMeta). m.height) (sym (only_genesis id meta e)) in
    omega arith

connect_block-Finished_example : Finished (connect_block seal child started).1
connect_block-Finished_example =
    connect_block-Finished seal root child started started-Heaviest.0.well_formed no_orphans
      started_low
