-- ===== src/Journal/Events.antt =====
-- crates/bitrst-core/src/chain_events.rs
use bitrst.Base.{ℕ, List}

pub data EvictionReason : Type 0 where
  pool_full : EvictionReason

pub data ChainEvent : Type 0 where
  -- height, hash, tx_count
  block_connected : ℕ → List ℕ → ℕ → ChainEvent
  -- height, hash
  block_disconnected : ℕ → List ℕ → ChainEvent
  -- depth, old_tip, new_tip
  chain_reorg : ℕ → List ℕ → List ℕ → ChainEvent
  -- hash, pool_size
  orphan_added : List ℕ → ℕ → ChainEvent
  orphan_evicted : List ℕ → EvictionReason → ChainEvent
