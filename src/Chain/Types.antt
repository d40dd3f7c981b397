-- ===== src/Chain/Types.antt =====
-- The types of crates/bitrst-core/src/chain.rs.
use bitrst.Base.{ℕ, List, Result, ok, ok_or, ◌>>=◌}
use bitrst.Base.Map.{Map}
use bitrst.Block.Types.{Block}
use bitrst.Journal.Log.{ChainEventJournal, ChainEventCursorError}
use bitrst.Journal.Disconnected.{DisconnectedBlockJournal, DisconnectedBlockRecoveryError}
use bitrst.Sighash.{SighashError}
use bitrst.Store.{MemoryBlockStore, StoreError}
use bitrst.Utxo.Types.{UtxoSet, UtxoError, TxUndo}
use bitrst.Work.Difficulty.{DifficultyError}
use bitrst.Work.Target.{from_bits, to_work}
use bitrst.Chain.Work.{ChainWork, as_work}

pub data ConnectResult : Type 0 where
  -- height, hash
  connected : ℕ → List ℕ → ConnectResult
  orphaned : List ℕ → ConnectResult
  -- old tip, new tip
  reorganized : List ℕ → List ℕ → ConnectResult
  -- height, hash
  side_chain : ℕ → List ℕ → ConnectResult

pub data ChainError : Type 0 where
  invalid_proof_of_work : ChainError
  merkle_root_mismatch : ChainError
  invalid_coinbase_count : ℕ → ChainError
  -- block time, median past, network time
  invalid_timestamp : ℕ → ℕ → ℕ → ChainError
  -- height, expected, actual
  unexpected_bits : ℕ → ℕ → ℕ → ChainError
  utxo : UtxoError → ChainError
  difficulty : DifficultyError → ChainError
  block_already_known : ChainError
  invalid_genesis : ChainError
  block_too_large : ChainError
  too_many_transactions : ChainError
  script_too_large : ChainError
  missing_ancestor : ChainError
  no_active_tip : ChainError
  store : StoreError → ChainError
  lock_poisoned : ChainError
  invalid_network_time : ChainError
  invalid_script : ChainError
  sighash : SighashError → ChainError
  event_cursor : ChainEventCursorError → ChainError
  disconnected_block_recovery : DisconnectedBlockRecoveryError → ChainError

-- How a call can fail: with an error of the source, by a panic, or because a loop of the model
-- ran out of fuel.
pub data Fault : Type 0 where
  failed : ChainError → Fault
  panicked : Fault
  out_of_fuel : Fault

pub record BlockMeta : Type 0 where
  pub block : Block
  pub height : ℕ
  pub work : ChainWork
  pub undo : List TxUndo

pub record OrphanEntry : Type 0 where
  pub block : Block
  pub received_at : ℕ

-- The tip is the head of the list of the active blocks.
pub record Chain : Type 0 where
  pub blocks : List Block
  pub active_hashes : Map (List ℕ) (Unit {0})
  pub known : Map (List ℕ) BlockMeta
  pub total_work : ChainWork
  pub utxo : UtxoSet
  pub orphans : Map (List ℕ) OrphanEntry
  pub orphan_receive_seq : ℕ
  pub network_time : ℕ
  pub store : MemoryBlockStore
  pub event_journal : ChainEventJournal
  pub disconnected_journal : DisconnectedBlockJournal

-- The work of one block, by its compact target.
unfoldable pub block_work : ℕ → Result ChainError ChainWork
block_work bits = do
  target ← ok_or (from_bits bits) invalid_proof_of_work
  work ← ok_or (to_work target) invalid_proof_of_work
  ok (as_work work)
