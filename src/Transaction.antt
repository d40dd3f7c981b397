-- ===== src/Transaction.antt =====
-- crates/bitrst-core/src/transaction.rs: transactions, their wire format and their identifiers.
pub mod Types
pub mod Encode
pub mod Decode
pub mod Deserialize
pub mod Size
pub mod Reads
pub mod Writes
pub mod RoundTrip
