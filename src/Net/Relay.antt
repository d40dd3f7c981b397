-- ===== src/Net/Relay.antt =====
-- The handlers of crates/bitrst-net/src/relay.rs. The handles of the chain and the mempool are the
-- chain and the mempool themselves: a lock that a panic has poisoned is not modelled.
use bitrst.Base.{
  ℕ, List, [], ◌∷◌, Option, none, some, Bool, true, false, not, length, ◌==◌, if◌then◌else◌,
}
use bitrst.Block.Types.{Block}
use bitrst.Transaction.Types.{Transaction}
use bitrst.Journal.Log.{ChainEventCursor}
use bitrst.Journal.Disconnected.{DisconnectedBlockRecoveryError}
use bitrst.Chain.Types.{Chain, Fault}
use bitrst.Chain.Reads.{has_block_hash}
use bitrst.Mempool.Types.{Mempool, contains}
use bitrst.Net.Types
use bitrst.Net.Types.{
  InvType, InventoryVector, Message, MessagePayload, getdata_message, block_message, tx_message,
}
use bitrst.Net.Requests.{RequestTracker, default_tracker, mark_requested, clear}

pub data RelayAction : Type 0 where
  no_action : RelayAction
  reply : List Message → RelayAction
  announce : List InventoryVector → RelayAction

-- An error of the chain, an error of the mempool, and a mempool that did not get ready on its fuel.
pub data RelayError : Type 0 where
  chain_fault : Fault → RelayError
  resync : DisconnectedBlockRecoveryError → RelayError
  unfinished : RelayError

pub record PeerRelayState : Type 0 where
  pub block_requests : RequestTracker
  pub tx_requests : RequestTracker
  pub chain_events : ChainEventCursor

unfoldable pub with_event_cursor : ChainEventCursor → PeerRelayState
with_event_cursor cursor = record {
  block_requests = default_tracker;
  tx_requests = default_tracker;
  chain_events = cursor;
}

-- What a handler works on.
pub record Node : Type 0 where
  pub chain : Chain
  pub mempool : Mempool
  pub relay : PeerRelayState

abbrev pub inventory : InvType → List ℕ → List InventoryVector
inventory inv_type hash_ = record { inv_type = inv_type; hash = hash_ } ∷ []

abbrev pub clear_block : List ℕ → Node → Node
clear_block hash_ node = record node {
  relay = record (node.relay) { block_requests = clear hash_ node.relay.block_requests };
}

-- `has_block(&hash)? || !block_requests.mark_requested(&hash, now)`, and the same for transactions:
-- whether to skip.
abbrev skip : Bool → RequestTracker × Bool → RequestTracker → RequestTracker × Bool
skip true marked tracker = (tracker, true)
skip false (tracker', fresh) tracker = (tracker', not fresh)

abbrev skip_block : Chain → List ℕ → ℕ → PeerRelayState → PeerRelayState × Bool
skip_block chain hash_ now relay =
    let (tracker, skipped) =
      skip (has_block_hash chain hash_) (mark_requested hash_ now relay.block_requests)
        relay.block_requests in
    (record relay { block_requests = tracker }, skipped)

abbrev skip_tx : Mempool → List ℕ → ℕ → PeerRelayState → PeerRelayState × Bool
skip_tx pool hash_ now relay =
    let (tracker, skipped) =
      skip (contains pool hash_) (mark_requested hash_ now relay.tx_requests) relay.tx_requests in
    (record relay { tx_requests = tracker }, skipped)

abbrev skip_item : InvType → Node → List ℕ → ℕ → PeerRelayState → PeerRelayState × Bool
skip_item Types.block node hash_ now relay = skip_block node.chain hash_ now relay
skip_item Types.transaction node hash_ now relay = skip_tx node.mempool hash_ now relay
skip_item Types.filtered_block node hash_ now relay = (relay, true)

unfoldable pub missing_items :
    Node → ℕ → List InventoryVector → PeerRelayState → PeerRelayState × List InventoryVector
missing_items node now [] relay = (relay, [])
missing_items node now (item ∷ items) relay =
    let (relay₁, skipped) = skip_item item.inv_type node item.hash now relay in
    let (relay₂, requests) = missing_items node now items relay₁ in
    (relay₂, if skipped then requests else item ∷ requests)

unfoldable pub handle_inv : List InventoryVector → ℕ → Node → Node × RelayAction
handle_inv items now node =
    let (relay, requests) = missing_items node now items node.relay in
    (
      record node { relay = relay },
      if length requests == 0 then no_action else reply (getdata_message requests ∷ []),
    )

unfoldable pub request_missing_block : List ℕ → ℕ → Node → Node × RelayAction
request_missing_block hash_ now node =
    let (relay, skipped) = skip_block node.chain hash_ now node.relay in
    (
      record node { relay = relay },
      if skipped then no_action else reply (getdata_message (inventory Types.block hash_) ∷ []),
    )

abbrev pub block_reply : Option Block → List Message
block_reply none = []
block_reply (some block) = block_message block ∷ []

abbrev pub tx_reply : Option Transaction → List Message
tx_reply none = []
tx_reply (some tx) = tx_message tx ∷ []
