-- ===== src/Journal.antt =====
-- crates/bitrst-core/src/chain_events.rs, chain_event_journal.rs and disconnected_block_journal.rs:
-- what the chain reports, and the bounded journals that keep the reports for several readers.
pub mod Events
pub mod Log
pub mod History
pub mod Readers
pub mod Disconnected
pub mod Recovery
