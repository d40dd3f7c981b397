-- ===== src/Tests/Codec.antt =====
-- The wire formats at concrete transactions, blocks and lists of hashes.
use bitrst.Base.{ℕ, ◌≤◌, ◌≡◌, refl, List, [], ◌∷◌, length, replicate, All, some, ok, arith}
use bitrst.Base.Int.{i32_bits}
use bitrst.Wire.Bytes.{IsByte, IsArray, to_le_bytes}
use bitrst.Wire.CompactSize.{write_compact_size, compact_size_encoded_len}
use bitrst.Transaction.Types.{IsTransaction}
use bitrst.Transaction.Reads.{WithinLimits}
use bitrst.Transaction.Encode.{
  serialize, serialized_size, write_input, write_inputs, write_output, write_outputs, input_size,
  output_size,
}
use bitrst.Transaction.Deserialize.{deserialize}
use bitrst.Transaction.Size.{length-serialize}
use bitrst.Transaction.RoundTrip.{deserialize-serialize, serialize-deserialize}
use bitrst.Block.Encode
use bitrst.Block.Deserialize
use bitrst.Block.Types.{IsBlock}
use bitrst.Block.Reads.{BlockWithinLimits}
use bitrst.Block.Size.{length-serialize_block}
use bitrst.Block.RoundTrip.{deserialize-serialize_block, serialize-deserialize_block}
use bitrst.Merkle.Root.{merkle_root}
use bitrst.Merkle.Levels.{merkle_root_total, merkle_root_duplicate}
use bitrst.Limits.{max_transaction_serialized_size, max_block_serialized_size}
use bitrst.Tests.Data.{
  toy, parent_id, spend, spend-IsTransaction, spend-WithinLimits, block, block-IsBlock,
  block-WithinLimits,
}

-- What the serializers call, to be opened in the runs below.
unfoldable pub program : Unit {0}
unfolding serialize write_inputs write_input write_outputs write_output write_compact_size
    to_le_bytes i32_bits serialized_size input_size output_size compact_size_encoded_len
program = tt

spend_small : serialized_size spend ≤ max_transaction_serialized_size
unfolding program
spend_small = omega arith

spend_bytes : All IsByte (serialize spend)
unfolding program
spend_bytes = omega arith

length-serialize_example : length (serialize spend) ≡ serialized_size spend
length-serialize_example = length-serialize spend spend-IsTransaction

deserialize-serialize_example : deserialize (serialize spend) ≡ ok spend
deserialize-serialize_example =
    deserialize-serialize spend spend-IsTransaction spend-WithinLimits spend_small

serialize-deserialize_example :
    (serialize spend ≡ serialize spend)
    × IsTransaction spend
    × WithinLimits spend
    × (length (serialize spend) ≤ max_transaction_serialized_size)
serialize-deserialize_example =
    serialize-deserialize (serialize spend) spend spend_bytes deserialize-serialize_example

block_small : Encode.serialized_size block ≤ max_block_serialized_size
unfolding program Encode.serialized_size
block_small = omega arith

block_bytes : All IsByte (Encode.serialize block)
unfolding program Encode.serialize Encode.serialize_header Encode.copy_at Encode.write_transactions
block_bytes = omega arith

length-serialize_block_example : length (Encode.serialize block) ≡ Encode.serialized_size block
length-serialize_block_example = length-serialize_block block block-IsBlock

deserialize-serialize_block_example : Deserialize.deserialize (Encode.serialize block) ≡ ok block
deserialize-serialize_block_example =
    deserialize-serialize_block block block-IsBlock block-WithinLimits block_small

serialize-deserialize_block_example :
    (Encode.serialize block ≡ Encode.serialize block)
    × IsBlock block
    × BlockWithinLimits block
    × (length (Encode.serialize block) ≤ max_block_serialized_size)
serialize-deserialize_block_example =
    serialize-deserialize_block (Encode.serialize block) block block_bytes
      deserialize-serialize_block_example

parent_IsArray : IsArray 32 parent_id
parent_IsArray = record { size = refl; bytes = omega arith }

merkle_root_total_example :
    (root : List ℕ) × (merkle_root toy (parent_id ∷ parent_id ∷ parent_id ∷ []) ≡ some root)
    × IsArray 32 root
merkle_root_total_example =
    merkle_root_total toy (parent_id ∷ parent_id ∷ parent_id ∷ []) (omega arith) (omega arith)
      (parent_IsArray, (parent_IsArray, (parent_IsArray, tt)))

merkle_root_duplicate_example :
    merkle_root toy (parent_id ∷ replicate 32 1 ∷ replicate 32 2 ∷ [])
    ≡ merkle_root toy (parent_id ∷ replicate 32 1 ∷ replicate 32 2 ∷ replicate 32 2 ∷ [])
merkle_root_duplicate_example =
    merkle_root_duplicate toy 0 (parent_id ∷ replicate 32 1 ∷ []) (replicate 32 2) refl
      (omega arith)
