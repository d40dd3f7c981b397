-- ===== src/Mempool/Cleared.antt =====
-- `remove_for_block` of crates/bitrst-core/src/mempool.rs: what a block leaves of the pool.
use bitrst.Base.{ℕ, ◌≡◌, List, All, map, some, false}
use bitrst.Base.Map
use bitrst.Base.Keys.{bytes_discrete, elem}
use bitrst.Crypto.{Primitives}
use bitrst.Transaction.Types.{TxInput, Transaction}
use bitrst.Transaction.Encode.{txid}
use bitrst.Block.Types.{Block}
use bitrst.Utxo.Types.{OutPoint, outpoint_of, outpoint_discrete}
use bitrst.Mempool.Types.{MempoolEntry, Mempool}
use bitrst.Mempool.Sync.{block_spends}
use bitrst.Mempool.Accounts.{Accounted, Shrunk}
use bitrst.Mempool.Keyed.{Present}
use bitrst.Mempool.Marks.{marked}

-- An input that neither a block nor what leaves the pool with it takes the output of.
pub record Apart (spent : List OutPoint) (confirmed : List (List ℕ)) (before after : Mempool)
    (input : TxInput) : Type 0 where
  pub unspent : elem outpoint_discrete (outpoint_of input) spent ≡ false
  pub foreign : marked input.previous_output confirmed ≡ false
  pub kept :
      Present before.entries input.previous_output → Present after.entries input.previous_output

-- What stays of a pool: transactions that are not confirmed, whose inputs stand apart.
pub record Cleared (crypto : Primitives) (txs : List Transaction) (before after : Mempool)
    : Type 0 where
  pub left :
      (id : List ℕ) (entry : MempoolEntry)
      → Map.get bytes_discrete id after.entries ≡ some entry
      → (marked id (map (txid crypto) txs) ≡ false)
        × All (Apart (block_spends txs) (map (txid crypto) txs) before after) entry.tx.inputs
  pub accounted : Accounted after
  pub shrunk : Shrunk before after
