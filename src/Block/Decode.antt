-- ===== src/Block/Decode.antt =====
-- `BlockHeader::decode_from` and the decoding part of `Block::deserialize` of
-- crates/bitrst-core/src/block.rs.
use bitrst.Base.{[]}
use bitrst.Wire.Reader.{Decoder, ◌>>=◌, pure, read_bytes, read_u32, read_i32, read_limited_len}
use bitrst.Transaction.Decode.{decode_many}
use bitrst.Transaction.Decode
use bitrst.Block.Types.{BlockHeader, Block}
use bitrst.Limits.{max_transactions_per_block}

unfoldable pub decode_header : Decoder BlockHeader
decode_header = do
  version ← read_i32 "block version"
  prev_blockhash ← read_bytes 32 "previous block hash"
  merkle_root ← read_bytes 32 "merkle root"
  time ← read_u32 "block time"
  bits ← read_u32 "block bits"
  nonce ← read_u32 "block nonce"
  pure (record {
    version = version;
    prev_blockhash = prev_blockhash;
    merkle_root = merkle_root;
    time = time;
    bits = bits;
    nonce = nonce;
  })

unfoldable pub decode_block : Decoder Block
decode_block = do
  header ← decode_header
  count ← read_limited_len "block transaction count" max_transactions_per_block
  transactions ← decode_many Decode.decode_from count []
  pure (record { header = header; transactions = transactions })
