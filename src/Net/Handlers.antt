-- ===== src/Net/Handlers.antt =====
-- The handlers of crates/bitrst-net/src/relay.rs that change the chain or the mempool.
use bitrst.Base.{
  ℕ, List, [], ◌∷◌, ◌++◌, Option, none, some, length, ◌==◌, if◌then◌else◌, Result, ok, err,
}
use bitrst.Crypto.{Primitives}
use bitrst.Block.Types.{Block}
use bitrst.Block.Encode.{hash}
use bitrst.Transaction.Types.{Transaction}
use bitrst.Transaction.Encode.{txid}
use bitrst.Journal.Events.{ChainEvent}
use bitrst.Journal.Log.{ChainEventCursor, ChainEventCursorError}
use bitrst.Journal.Disconnected.{DisconnectedBlockRecoveryError}
use bitrst.Chain.Types.{
  ConnectResult, connected, orphaned, reorganized, side_chain, Fault, failed, block_already_known,
}
use bitrst.Chain.Reads.{block_by_hash, event_cursor, collect_events}
use bitrst.Chain.Connect.{connect_block}
use bitrst.Mempool.Types.{Mempool, MempoolError, AcceptedTx}
use bitrst.Mempool.Pool.{accept_tx}
use bitrst.Mempool.Sync.{apply_chain_events, resync_to_active_chain, serve_transaction}
use bitrst.Net.Types
use bitrst.Net.Types.{InvType, InventoryVector, Message, MessagePayload}
use bitrst.Net.Requests.{clear}
use bitrst.Net.Relay.{
  RelayAction, no_action, reply, announce, RelayError, chain_fault, resync, unfinished, Node,
  inventory, clear_block, block_reply, tx_reply, handle_inv, request_missing_block,
}

abbrev pub Relayed : Type 0 → Type 0
Relayed A = Node × Result RelayError A

abbrev and_then : {A B : Type 0} → Relayed A → (A → Node → Relayed B) → Relayed B
and_then (node, ok a) f = f a node
and_then (node, err e) f = (node, err e)

abbrev read_from : ChainEventCursor → Node → Node
read_from cursor node = record node { relay = record (node.relay) { chain_events = cursor } }

abbrev with_pool : Option Mempool → Node → Relayed (Unit {0})
with_pool none node = (node, err unfinished)
with_pool (some pool) node = (record node { mempool = pool }, ok tt)

abbrev with_resync :
    Option (Mempool × Result DisconnectedBlockRecoveryError (Unit {0})) → Node → Relayed (Unit {0})
with_resync none node = (node, err unfinished)
with_resync (some (pool, ok done)) node = (record node { mempool = pool }, ok tt)
with_resync (some (pool, err e)) node = (record node { mempool = pool }, err (resync e))

module _ (crypto : Primitives) where
  -- The `match` on the events; with a gap the cursor moves before the pool does.
  abbrev synced :
      Result ChainEventCursorError (List ChainEvent × ChainEventCursor) → Node → Relayed (Unit {0})
  synced (ok (events, cursor)) node =
      let node₁ = read_from cursor node in
      if length events == 0
      then (node₁, ok tt)
      else with_pool (apply_chain_events crypto node.mempool events node.chain) node₁
  synced (err e) node =
      with_resync
        (resync_to_active_chain crypto node.mempool node.chain node.relay.chain_events.last_seq)
        (read_from (event_cursor node.chain) node)

  unfoldable pub sync_mempool : Node → Relayed (Unit {0})
  sync_mempool node = synced (collect_events node.chain node.relay.chain_events) node

  abbrev accepted : Option (Mempool × Result MempoolError AcceptedTx) → Node → Relayed RelayAction
  accepted none node = (node, err unfinished)
  accepted (some (pool, err e)) node = (record node { mempool = pool }, ok no_action)
  accepted (some (pool, ok tx)) node =
      (record node { mempool = pool }, ok (announce (inventory Types.transaction tx.txid)))

  unfoldable pub handle_tx : Transaction → Node → Relayed RelayAction
  handle_tx tx node = accepted (accept_tx crypto node.mempool tx node.chain.utxo) (record node {
    relay = record (node.relay) { tx_requests = clear (txid crypto tx) node.relay.tx_requests };
  })

  abbrev announced : List ℕ → Node → Relayed RelayAction
  announced id node =
      and_then (sync_mempool (clear_block id node))
        (λ done node₁. (node₁, ok (announce (inventory Types.block id))))

  abbrev wants_parent : List ℕ → ℕ → Node → Relayed RelayAction
  wants_parent parent now node =
      let (node₁, action) = request_missing_block parent now node in (node₁, ok action)

  -- The `match` on the result of `connect_block`.
  abbrev after_connect : Block → ℕ → Result Fault ConnectResult → Node → Relayed RelayAction
  after_connect block now (ok (connected at id)) node = announced (hash crypto block) node
  after_connect block now (ok (reorganized old new_)) node = announced (hash crypto block) node
  after_connect block now (ok (orphaned id)) node =
      wants_parent block.header.prev_blockhash now node
  after_connect block now (ok (side_chain at id)) node = (node, ok no_action)
  after_connect block now (err (failed block_already_known)) node = (node, ok no_action)
  after_connect block now (err fault) node = (
    clear_block block.header.prev_blockhash (clear_block (hash crypto block) node),
    err (chain_fault fault),
  )

  unfoldable pub handle_block : Block → ℕ → Node → Relayed RelayAction
  handle_block block now node =
      let (chain, result) = connect_block crypto block node.chain in
      after_connect block now result (record node { chain = chain })

  abbrev replies : InvType → List ℕ → Node → Node × List Message
  replies Types.block id node = (node, block_reply (block_by_hash node.chain id))
  replies Types.transaction id node =
      let (pool, tx) = serve_transaction crypto node.mempool id node.chain.utxo in
      (record node { mempool = pool }, tx_reply tx)
  replies Types.filtered_block id node = (node, [])

  unfoldable pub serve_items : List InventoryVector → Node → Node × List Message
  serve_items [] node = (node, [])
  serve_items (item ∷ items) node =
      let (node₁, first) = replies item.inv_type item.hash node in
      let (node₂, rest) = serve_items items node₁ in (node₂, first ++ rest)

  unfoldable pub handle_getdata : List InventoryVector → Node → Node × RelayAction
  handle_getdata items node =
      let (node₁, messages) = serve_items items node in
      (node₁, if length messages == 0 then no_action else reply messages)

  abbrev unfailing : Node × RelayAction → Relayed RelayAction
  unfailing (node, action) = (node, ok action)

  abbrev handle_payload : MessagePayload → ℕ → Node → Relayed RelayAction
  handle_payload (MessagePayload.block b) now node = handle_block b now node
  handle_payload (Types.inv items) now node = unfailing (handle_inv items now node)
  handle_payload (Types.get_data items) now node = unfailing (handle_getdata items node)
  handle_payload (Types.tx t) now node = handle_tx t node
  handle_payload (Types.version v) now node = (node, ok no_action)
  handle_payload Types.verack now node = (node, ok no_action)

  unfoldable pub handle_peer_message : Message → ℕ → Node → Relayed RelayAction
  handle_peer_message message now node = handle_payload message.payload now node
