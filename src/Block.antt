-- ===== src/Block.antt =====
-- crates/bitrst-core/src/block.rs: block headers, blocks, their wire format and commitments.
pub mod Types
pub mod Encode
pub mod Decode
pub mod Deserialize
pub mod Size
pub mod Reads
pub mod Writes
pub mod RoundTrip
