-- ===== src/Block/Size.antt =====
-- `serialized_size` of crates/bitrst-core/src/block.rs against the bytes that are written.
use bitrst.Base.{◌≡◌, refl, List, [], ◌∷◌, length, length-append, All, arith}
use bitrst.Wire.Bytes.{length-to_le_bytes}
use bitrst.Wire.CompactSize.{length-compact_size}
use bitrst.Transaction.Types.{Transaction, IsTransaction}
use bitrst.Transaction.Encode.{serialize-encode, sum_by, concat_by}
use bitrst.Transaction.Encode.{encode as encode_transaction, serialized_size as transaction_size}
use bitrst.Transaction.Size
use bitrst.Block.Types.{BlockHeader, Block, IsBlockHeader, IsBlock}
use bitrst.Block.Encode.{serialize, serialized_size, encode, encode_header, serialize-encode_block}

pub length-encode_header :
    (header : BlockHeader) → IsBlockHeader header → length (encode_header header) ≡ 80
unfolding encode_header
length-encode_header header h =
    simp (length-append, length-to_le_bytes)
      (omega (arith, h.prev_blockhash.size, h.merkle_root.size))

length-transactions :
    (txs : List Transaction)
    → All IsTransaction txs
    → length (concat_by encode_transaction txs) ≡ sum_by transaction_size txs
length-transactions [] h = refl
length-transactions (tx ∷ txs) h =
    rw
      (
        length-append,
        ← serialize-encode tx,
        Size.length-serialize tx h.0,
        length-transactions txs h.1,
      )
      refl

-- The analytic size of a block that its types admit is the number of bytes that serializing it
-- writes.
pub length-serialize_block :
    (block : Block) → IsBlock block → length (serialize block) ≡ serialized_size block
unfolding encode serialized_size
length-serialize_block block h = rw (serialize-encode_block block h.header) (
    simp (length-append, length-compact_size)
      (omega (
        arith,
        length-encode_header block.header h.header,
        length-transactions block.transactions h.transactions,
      )))
