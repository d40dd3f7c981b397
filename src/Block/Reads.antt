-- ===== src/Block/Reads.antt =====
-- The decoders of headers and blocks read what the encoders write.
use bitrst.Base.{◌≤◌, List, [], ◌∷◌, length, All, arith}
use bitrst.Wire.Reads.{
  Reads, Reads-bind, Reads-return, Reads-read_bytes, Reads-read_u32, Reads-read_i32,
  Reads-read_limited_len,
}
use bitrst.Transaction.Types.{Transaction, IsTransaction}
use bitrst.Transaction.Encode.{encode as encode_transaction}
use bitrst.Transaction.Decode.{decode_from}
use bitrst.Transaction.Reads.{WithinLimits, Reads-decode_many, Reads-decode_from}
use bitrst.Block.Types.{BlockHeader, Block, IsBlockHeader, IsBlock}
use bitrst.Block.Encode.{encode, encode_header}
use bitrst.Block.Decode.{decode_header, decode_block}
use bitrst.Limits.{max_transactions_per_block}

pub record BlockWithinLimits (block : Block) : Type 0 where
  pub count : length block.transactions ≤ max_transactions_per_block
  pub transactions : All WithinLimits block.transactions

pub Reads-decode_header :
    (header : BlockHeader)
    → IsBlockHeader header
    → Reads decode_header (encode_header header) header
unfolding decode_header encode_header
Reads-decode_header header h = Reads-bind _ _ (Reads-read_i32 _ header.version h.version) (
    Reads-bind _ _ (Reads-read_bytes 32 _ header.prev_blockhash h.prev_blockhash.size) (
      Reads-bind _ _ (Reads-read_bytes 32 _ header.merkle_root h.merkle_root.size) (
        Reads-bind _ _ (Reads-read_u32 _ header.time h.time) (
          Reads-bind _ _ (Reads-read_u32 _ header.bits h.bits)
            (Reads-return _ _ (Reads-read_u32 _ header.nonce h.nonce))))))

Reads-transactions :
    (txs : List Transaction)
    → All IsTransaction txs
    → All WithinLimits txs
    → All (λ tx. Reads decode_from (encode_transaction tx) tx) txs
Reads-transactions [] h k = tt
Reads-transactions (tx ∷ txs) h k = (Reads-decode_from tx h.0 k.0, Reads-transactions txs h.1 k.1)

pub Reads-decode_block :
    (block : Block)
    → IsBlock block
    → BlockWithinLimits block
    → Reads decode_block (encode block) block
unfolding decode_block encode
Reads-decode_block block h k = Reads-bind _ _ (Reads-decode_header block.header h.header) (
    Reads-bind _ _
      (Reads-read_limited_len _ max_transactions_per_block (length block.transactions) k.count
        (omega arith))
      (Reads-return _ _ (
        Reads-decode_many _ _ [] block.transactions
          (Reads-transactions block.transactions h.transactions k.transactions))))
