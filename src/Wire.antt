-- ===== src/Wire.antt =====
-- crates/bitrst-core/src/wire.rs and the CompactSize writer of crates/bitrst-core/src/transaction.rs.
-- Byte strings, the bounded reader over untrusted bytes, and the rules by which a decoder that is a
-- `do` block is proved to invert an encoder.
pub mod Bytes
pub mod Reader
pub mod CompactSize
pub mod Reads
pub mod Writes
