-- ===== src/Merkle.antt =====
-- crates/bitrst-core/src/merkle.rs: the Merkle root of a list of transaction identifiers.
pub mod Root
pub mod Levels
