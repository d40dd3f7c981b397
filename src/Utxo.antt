-- ===== src/Utxo.antt =====
-- crates/bitrst-core/src/utxo.rs: the set of unspent outputs, its validation rules and its undo data.
pub mod Types
pub mod Validate
pub mod Apply
pub mod Sums
pub mod Undo
pub mod Value
