-- ===== src/Chain/Attach.antt =====
-- How crates/bitrst-core/src/chain.rs puts a block on the active chain and takes the tip off it.
use bitrst.Base.{
  ℕ, ◌+◌, ◌^◌, List, [], ◌∷◌, length, Option, none, some, ltb, if◌then◌else◌, ok, err,
}
use bitrst.Base.Map
use bitrst.Base.Map.{Map}
use bitrst.Base.Keys.{bytes_discrete}
use bitrst.Crypto.{Primitives}
use bitrst.Block.Types.{Block}
use bitrst.Block.Encode.{hash}
use bitrst.Transaction.Types.{Transaction}
use bitrst.Utxo.Types.{UtxoSet, TxUndo}
use bitrst.Utxo.Apply.{apply_transaction, disconnect_undo}
use bitrst.Journal.Events.{ChainEvent, block_connected, block_disconnected}
use bitrst.Journal.Log
use bitrst.Journal.Disconnected.{record_block}
use bitrst.Store.{put_block}
use bitrst.Chain.Work.{ChainWork, default}
use bitrst.Chain.Types
use bitrst.Chain.Types.{Chain, BlockMeta, failed}
use bitrst.Chain.Reads.{height}
use bitrst.Chain.Action.{Action}

-- `self.event_journal.push(event)`, which gives the sequence of the event.
unfoldable pub publish : ChainEvent → Action ℕ
publish event chain =
    let (journal, seq) = Log.push chain.event_journal event in
    (record chain { event_journal = journal }, ok seq)

abbrev pub announce : ChainEvent → Chain → Chain
announce event chain = (publish event chain).0

abbrev pub work_of : Option BlockMeta → ChainWork
work_of none = default
work_of (some meta) = meta.work

-- `saturating_add(1)` on the height of what is left
abbrev pub height_above : Chain → ℕ
height_above chain = if ltb (height chain + 1) (2 ^ 32) then height chain + 1 else height chain

module _ (crypto : Primitives) where
  -- `apply_block_transactions`: the set, and the undo of each transaction in order.
  unfoldable pub apply_all : List Transaction → UtxoSet → UtxoSet × List TxUndo
  apply_all [] set = (set, [])
  apply_all (tx ∷ txs) set =
      let (set', undo) = apply_transaction crypto set tx in
      let (last, undos) = apply_all txs set' in (last, undo ∷ undos)

  -- The transactions of the block, the store, the index, the list of the active blocks and the
  -- event. `work` is that of the chain up to the block.
  unfoldable pub attach : Block → ℕ → ChainWork → Chain → Chain
  attach block at work chain =
      let id = hash crypto block in
      let (set, undo) = apply_all block.transactions chain.utxo in
      announce (block_connected at id (length block.transactions)) (record chain {
        utxo = set;
        store = put_block crypto chain.store block;
        known =
            Map.insert bytes_discrete id
              (record { block = block; height = at; work = work; undo = undo }) chain.known;
        blocks = block ∷ chain.blocks;
        active_hashes = Map.insert bytes_discrete id tt chain.active_hashes;
      })

  -- `for undo in meta.undo.iter().rev()`
  unfoldable pub undo_all : List TxUndo → UtxoSet → UtxoSet
  undo_all [] set = set
  undo_all (undo ∷ undos) set = disconnect_undo (undo_all undos set) undo

  -- The work of the block at the head of the list, as the index has it.
  unfoldable pub tip_work : List Block → Map (List ℕ) BlockMeta → ChainWork
  tip_work [] known = default
  tip_work (tip ∷ blocks) known = work_of (Map.get bytes_discrete (hash crypto tip) known)

  -- What follows the lookup of the block's metadata.
  unfoldable pub detach : Block → ℕ → BlockMeta → Chain → Chain
  detach block at meta chain =
      let changed = record chain {
        utxo = undo_all meta.undo chain.utxo;
        total_work = tip_work chain.blocks chain.known;
      } in
      let (published, seq) =
        Log.push chain.event_journal (block_disconnected at (hash crypto block)) in
      record changed {
        event_journal = published;
        disconnected_journal = record_block chain.disconnected_journal seq block;
      }

  -- The block is off the list and its hash off the active ones before the index is asked.
  abbrev pub take_off : Block → List Block → Chain → Chain
  take_off block blocks chain = record chain {
    blocks = blocks;
    active_hashes = Map.remove bytes_discrete (hash crypto block) chain.active_hashes;
  }

  abbrev pub disconnect_found : Block → Option BlockMeta → Action (Unit {0})
  disconnect_found block none chain = (chain, err (failed Types.missing_ancestor))
  disconnect_found block (some meta) chain = (detach block (height_above chain) meta chain, ok tt)

  abbrev pub disconnect : List Block → Action (Unit {0})
  disconnect [] chain = (chain, err (failed Types.no_active_tip))
  disconnect (block ∷ blocks) chain =
      disconnect_found block (Map.get bytes_discrete (hash crypto block) chain.known)
        (take_off block blocks chain)

  unfoldable pub disconnect_tip_block : Action (Unit {0})
  disconnect_tip_block chain = disconnect chain.blocks chain
