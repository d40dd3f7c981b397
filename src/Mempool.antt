-- ===== src/Mempool.antt =====
-- crates/bitrst-core/src/mempool.rs: the bounded pool of transactions that wait for a block.
pub mod Types
pub mod Validate
pub mod Pool
pub mod Accounts
pub mod Bounds
pub mod Priority
pub mod Accepted
pub mod Sync
pub mod Keyed
pub mod Revalidate
pub mod Marks
pub mod Cleared
pub mod Admission
pub mod Spends
pub mod DoubleSpends
