-- ===== src/Chain/Connect.antt =====
-- `new_genesis` and `connect_block` of crates/bitrst-core/src/chain.rs.
use bitrst.Base.{
  ℕ, zero, suc, ◌+◌, ◌%◌, ◌^◌, List, [], ◌∷◌, Option, none, some, Bool, true, false, ◌==◌,
  if◌then◌else◌, Result, ok, err, ◌>>=◌, ◌>>◌, reject_if,
}
use bitrst.Base.Map
use bitrst.Base.Keys.{bytes_discrete, holds}
use bitrst.Crypto.{Primitives}
use bitrst.Block.Types.{Block}
use bitrst.Block.Encode.{hash}
use bitrst.Journal.Events.{chain_reorg}
use bitrst.Journal.Log
use bitrst.Journal.Log.{ChainEventJournal}
use bitrst.Journal.Disconnected
use bitrst.Journal.Disconnected.{DisconnectedBlockJournal}
use bitrst.Store
use bitrst.Utxo.Types as UtxoTypes
use bitrst.Chain.Work
use bitrst.Chain.Work.{ChainWork, add, at_most}
use bitrst.Chain.Types
use bitrst.Chain.Types.{
  Chain, ChainError, ConnectResult, BlockMeta, Fault, failed, out_of_fuel, block_work, connected,
  orphaned, reorganized, side_chain,
}
use bitrst.Chain.Validate.{validate_block_limits}
use bitrst.Chain.Header.{validate_block_for_parent, returned}
use bitrst.Chain.Reads.{tip_hash, has_block_hash}
use bitrst.Chain.Attach.{announce, attach}
use bitrst.Chain.Reorg.{reorg_to_block}
use bitrst.Chain.Orphans.{insert_orphan, enqueue_ready_orphans}
use bitrst.Chain.Action
use bitrst.Chain.Action.{Action, after, pure, lift}

module _ (crypto : Primitives) where
  abbrev pub blank : ℕ → ChainEventJournal → DisconnectedBlockJournal → Chain
  blank network_time events disconnected = record {
    blocks = [];
    active_hashes = [];
    known = [];
    total_work = Work.default;
    utxo = UtxoTypes.new;
    orphans = [];
    orphan_receive_seq = 0;
    network_time = network_time;
    store = Store.new;
    event_journal = events;
    disconnected_journal = disconnected;
  }

  -- What both constructors do with the journals that they have made.
  unfoldable pub start :
      Block → ℕ → ChainEventJournal → DisconnectedBlockJournal → Result Fault Chain
  start genesis network_time events disconnected =
      let chain = blank network_time events disconnected in
      (do
        reject_if (network_time == 0) (failed Types.invalid_network_time)
        returned (validate_block_limits genesis)
        validate_block_for_parent crypto genesis none none 0 chain
        work ← returned (block_work genesis.header.bits)
        ok (record (attach crypto genesis 0 work chain) { total_work = work }))

  unfoldable pub new_genesis : Block → ℕ → Result Fault Chain
  new_genesis genesis network_time = start genesis network_time Log.default Disconnected.default

  unfoldable pub with_journal_capacities : Block → ℕ → ℕ → Result Fault Chain
  with_journal_capacities genesis network_time event_capacity =
      start genesis network_time (Log.with_capacity event_capacity)
        (Disconnected.with_capacity event_capacity)

  -- The height and the work of the chain up to a block whose parent is known; `height + 1` wraps.
  unfoldable pub place : Block → BlockMeta → Chain → Result Fault (ℕ × ChainWork)
  place block parent chain =
      let at = (parent.height + 1) % 2 ^ 32 in
      (do
        validate_block_for_parent crypto block (some parent.block)
            (some block.header.prev_blockhash) at chain
        work ← returned (block_work block.header.bits)
        ok (at, add parent.work work))

  -- The block on the active tip.
  unfoldable pub extend : Block → ℕ → ChainWork → Action ConnectResult
  extend block at work chain = (
    record (attach crypto block at work chain) { total_work = work },
    ok (connected at (hash crypto block)),
  )

  -- The block on a side chain that does not have more work than the active chain.
  unfoldable pub keep_aside : Block → ℕ → ChainWork → Action ConnectResult
  keep_aside block at work chain = (
    record chain {
      known =
          Map.insert bytes_discrete (hash crypto block)
            (record { block = block; height = at; work = work; undo = [] }) chain.known;
    },
    ok (side_chain at (hash crypto block)),
  )

  -- The block on a side chain that has more work than the active chain.
  unfoldable pub switch : Block → ChainWork → Action ConnectResult
  switch block work chain = after (reorg_to_block crypto block work chain) (λ depth moved.
      let old_tip = tip_hash crypto chain in
      let new_tip = tip_hash crypto moved in
      (announce (chain_reorg depth old_tip new_tip) moved, ok (reorganized old_tip new_tip)))

  unfoldable pub settle : Block → ℕ → ChainWork → Action ConnectResult
  settle block at work chain =
      if holds (bytes_discrete block.header.prev_blockhash (tip_hash crypto chain))
      then extend block at work chain
      else (if at_most work chain.total_work
          then keep_aside block at work chain
          else switch block work chain)

  abbrev pub settle_at : Block → Result Fault (ℕ × ChainWork) → Action ConnectResult
  settle_at block (err fault) chain = (chain, err fault)
  settle_at block (ok (at, work)) chain = settle block at work chain

  unfoldable pub connect_to_parent : Block → Option BlockMeta → Action ConnectResult
  connect_to_parent block none chain =
      (insert_orphan crypto block chain, ok (orphaned (hash crypto block)))
  connect_to_parent block (some parent) chain = settle_at block (place block parent chain) chain

  -- The checks before the parent is looked up.
  unfoldable pub check_new : Block → Chain → Result Fault (Unit {0})
  check_new block chain = do
    returned (validate_block_limits block)
    reject_if (has_block_hash chain (hash crypto block)) (failed Types.block_already_known)

  -- `connect_block_inner(block, false)`
  unfoldable pub connect_one : Block → Action ConnectResult
  connect_one block chain =
      (Action.◌>>◌ (lift (check_new block chain)) (
          connect_to_parent block (Map.get bytes_discrete block.header.prev_blockhash chain.known)))
        chain

  -- `while let Some(block) = queue.pop_front()`
  unfoldable pub connect_queue : ℕ → List Block → Action (Unit {0})
  connect_queue fuel [] chain = (chain, ok tt)
  connect_queue zero (block ∷ queue) chain = (chain, err out_of_fuel)
  connect_queue (suc fuel) (block ∷ queue) chain = after (connect_one block chain) (λ outcome moved.
      let (queue', chain') = enqueue_ready_orphans queue moved in connect_queue fuel queue' chain')

  -- Every round takes an orphan out of the pool for good.
  unfoldable pub process_orphans : Action (Unit {0})
  process_orphans chain =
      let (queue, chain') = enqueue_ready_orphans [] chain in
      connect_queue (Map.size chain.orphans) queue chain'

  abbrev pub tip_moved : ConnectResult → Bool
  tip_moved (connected at id) = true
  tip_moved (orphaned id) = false
  tip_moved (reorganized old new_) = true
  tip_moved (side_chain at id) = false

  -- `connect_block_inner(block, true)`
  unfoldable pub connect_block : Block → Action ConnectResult
  connect_block block chain = after (connect_one block chain) (λ outcome moved.
      if tip_moved outcome
      then after (process_orphans moved) (λ done. pure outcome)
      else (moved, ok outcome))
