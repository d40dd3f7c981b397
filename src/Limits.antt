-- ===== src/Limits.antt =====
-- crates/bitrst-core/src/limits.rs: the protocol and resource bounds.
use bitrst.Base.{ℕ}

abbrev pub max_block_serialized_size : ℕ
max_block_serialized_size = 4_000_000

abbrev pub max_transaction_serialized_size : ℕ
max_transaction_serialized_size = max_block_serialized_size

abbrev pub max_orphan_blocks : ℕ
max_orphan_blocks = 256

abbrev pub max_transactions_per_block : ℕ
max_transactions_per_block = 25_000

abbrev pub max_transaction_inputs : ℕ
max_transaction_inputs = 25_000

abbrev pub max_transaction_outputs : ℕ
max_transaction_outputs = 25_000

abbrev pub max_script_size : ℕ
max_script_size = 10_000

abbrev pub default_chain_event_journal_capacity : ℕ
default_chain_event_journal_capacity = 256

abbrev pub default_disconnected_block_journal_capacity : ℕ
default_disconnected_block_journal_capacity = default_chain_event_journal_capacity

abbrev pub default_max_mempool_tx_count : ℕ
default_max_mempool_tx_count = 5_000

abbrev pub default_max_mempool_bytes : ℕ
default_max_mempool_bytes = 300_000_000
