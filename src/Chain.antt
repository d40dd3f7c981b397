-- ===== src/Chain.antt =====
-- crates/bitrst-core/src/chain.rs: the active chain, side chains, orphans and reorganization.
pub mod Work
pub mod Types
pub mod Validate
pub mod Header
pub mod Action
pub mod Reads
pub mod Attach
pub mod Reorg
pub mod Orphans
pub mod Connect
pub mod Steps
pub mod Rollback
pub mod OrphanPool
pub mod Undo
pub mod Index
pub mod Active
pub mod Switching
pub mod Climbing
pub mod Reorged
pub mod WellFormed
pub mod Weight
pub mod Heaviest
pub mod Finishes
pub mod Termination
pub mod Queue
pub mod Genesis
