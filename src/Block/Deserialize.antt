-- ===== src/Block/Deserialize.antt =====
-- `BlockHeader::deserialize`, `Block::deserialize` and `header_merkle_root_matches` of
-- crates/bitrst-core/src/block.rs.
use bitrst.Base.{
  ℕ, List, length, ltb, if◌then◌else◌, Result, ok, err, ◌>>=◌, ◌>>◌, Bool, false, none, some,
}
use bitrst.Base.Keys.{bytes_discrete, holds}
use bitrst.Wire.Reader.{DecodeError, limit_exceeded, new, finish}
use bitrst.Crypto.{Primitives}
use bitrst.Block.Types.{BlockHeader, Block, merkle_root_from_transactions}
use bitrst.Block.Decode.{decode_header, decode_block}
use bitrst.Limits.{max_block_serialized_size}

unfoldable pub deserialize_header : List ℕ → Result DecodeError BlockHeader
deserialize_header bytes = do
  (header, reader) ← decode_header (new bytes)
  finish reader "block header"
  ok header

unfoldable pub deserialize : List ℕ → Result DecodeError Block
deserialize bytes =
    if ltb max_block_serialized_size (length bytes)
    then err (limit_exceeded "block size" (length bytes) max_block_serialized_size)
    else (do (block, reader) ← decode_block (new bytes); finish reader "block"; ok block)

-- `self.merkle_root().is_some_and(|root| root == self.header.merkle_root)`
unfoldable pub header_merkle_root_matches : Primitives → Block → Bool
header_merkle_root_matches crypto block =
    elim (merkle_root_from_transactions crypto block.transactions) [
      | none ↦ false
      | some root ↦ holds (bytes_discrete root block.header.merkle_root)
    ]
