-- ===== src/Block/Types.antt =====
-- `BlockHeader`, `Block` and `Block::coinbase` of crates/bitrst-core/src/block.rs.
use bitrst.Base.{
  ℕ, ◌^◌, ◌<◌, List, [], ◌∷◌, length, ◌==◌, if◌then◌else◌, All, Option, none, some, map,
}
use bitrst.Base.Int.{ℤ, IsI32}
use bitrst.Wire.Bytes.{IsArray}
use bitrst.Crypto.{Primitives}
use bitrst.Transaction.Types.{Transaction, IsTransaction, coinbase}
use bitrst.Transaction.Encode.{txid}
use bitrst.Merkle.Root.{merkle_root}

pub record BlockHeader : Type 0 where
  pub version : ℤ
  pub prev_blockhash : List ℕ
  pub merkle_root : List ℕ
  pub time : ℕ
  pub bits : ℕ
  pub nonce : ℕ

pub record Block : Type 0 where
  pub header : BlockHeader
  pub transactions : List Transaction

pub record IsBlockHeader (header : BlockHeader) : Type 0 where
  pub version : IsI32 header.version
  pub prev_blockhash : IsArray 32 header.prev_blockhash
  pub merkle_root : IsArray 32 header.merkle_root
  pub time : header.time < 2 ^ 32
  pub bits : header.bits < 2 ^ 32
  pub nonce : header.nonce < 2 ^ 32

pub record IsBlock (block : Block) : Type 0 where
  pub header : IsBlockHeader block.header
  pub transactions : All IsTransaction block.transactions

module _ (crypto : Primitives) where
  unfoldable pub merkle_root_from_transactions : List Transaction → Option (List ℕ)
  merkle_root_from_transactions transactions =
      if length transactions == 0 then none else merkle_root crypto (map (txid crypto) transactions)

  abbrev with_root : BlockHeader → Option (List ℕ) → BlockHeader
  with_root header none = header
  with_root header (some root) = record header { merkle_root = root }

  -- `Block::coinbase`
  unfoldable pub coinbase_block : BlockHeader → ℕ → ℕ → Block
  coinbase_block header height reward =
      let transactions = coinbase height reward ∷ [] in
      record {
        header = with_root header (merkle_root_from_transactions transactions);
        transactions = transactions;
      }
