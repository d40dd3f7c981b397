-- ===== src/Mempool/Sync.antt =====
-- The pool of crates/bitrst-core/src/mempool.rs after blocks joined or left the chain. `none` is a
-- lack of fuel; a round of each loop but the last changes the number of entries or candidates.
use bitrst.Base.{
  ℕ, zero, suc, List, [], ◌∷◌, ◌++◌, Option, none, some, Bool, true, false, not, ◌&&◌, ◌||◌, take,
  reverse, ◌==◌, length, if◌then◌else◌, Result, ok, err, map,
}
use bitrst.Base.Options.{◌>>=◌}
use bitrst.Base.Keys.{bytes_discrete, holds, elem}
use bitrst.Crypto.{Primitives}
use bitrst.Transaction.Types.{TxInput, Transaction}
use bitrst.Transaction.Encode.{txid}
use bitrst.Block.Types.{Block}
use bitrst.Utxo.Types.{OutPoint, UtxoSet, outpoint_of, outpoint_discrete, is_coinbase}
use bitrst.Utxo.Apply.{apply_transaction}
use bitrst.Journal.Events.{
  ChainEvent, block_connected, block_disconnected, chain_reorg, orphan_added, orphan_evicted,
}
use bitrst.Journal.Disconnected.{DisconnectedBlockRecoveryError}
use bitrst.Chain.Types.{Chain}
use bitrst.Chain.Reads.{height, block_by_hash, recovery_disconnected_blocks}
use bitrst.Mempool.Types.{MempoolEntry, Mempool, MempoolError, AcceptedTx, len, get_transaction}
use bitrst.Mempool.Validate.{is_valid_for_view}
use bitrst.Mempool.Pool.{Entries, ordered, apply_all, remove_entry, remove_entries, accept_tx}

-- `OutPoint`s of the transactions that are not coinbases.
abbrev outpoints : List TxInput → List OutPoint
outpoints [] = []
outpoints (input ∷ inputs) = outpoint_of input ∷ outpoints inputs

unfoldable pub block_spends : List Transaction → List OutPoint
block_spends [] = []
block_spends (tx ∷ txs) =
    let rest = block_spends txs in if is_coinbase tx then rest else outpoints tx.inputs ++ rest

unfoldable pub spends_removed : List OutPoint → List (List ℕ) → List TxInput → Bool
spends_removed spent removed [] = false
spends_removed spent removed (input ∷ inputs) =
    (elem outpoint_discrete (outpoint_of input) spent
      || elem bytes_discrete input.previous_output removed)
    || spends_removed spent removed inputs

-- One pass of the loop in `remove_for_block`: the set, and whether it has grown.
unfoldable pub mark_spenders : List OutPoint → Entries → List (List ℕ) → Bool → List (List ℕ) × Bool
mark_spenders spent [] removed added = (removed, added)
mark_spenders spent ((id, entry) ∷ entries) removed added =
    let marks =
      not (elem bytes_discrete id removed) && spends_removed spent removed entry.tx.inputs in
    mark_spenders spent entries (if marks then id ∷ removed else removed) (added || marks)

-- Each round but the last marks an entry.
unfoldable pub mark_all : ℕ → List OutPoint → Entries → List (List ℕ) → Option (List (List ℕ))
mark_all zero spent entries removed = none
mark_all (suc fuel) spent entries removed =
    let pass = mark_spenders spent entries removed false in
    let rest = mark_all fuel spent entries (pass.0) in if pass.1 then rest else some (pass.0)

-- `block.transactions.iter().skip(1)`, less coinbases.
abbrev pub not_coinbase : List Transaction → List Transaction
not_coinbase [] = []
not_coinbase (tx ∷ txs) = let rest = not_coinbase txs in if is_coinbase tx then rest else tx ∷ rest

abbrev pub behind_first : List Transaction → List Transaction
behind_first [] = []
behind_first (tx ∷ txs) = txs

unfoldable pub candidates_of : List Block → List Transaction
candidates_of [] = []
candidates_of (block ∷ blocks) =
    not_coinbase (behind_first block.transactions) ++ candidates_of blocks

-- The events that name a block, in two lists.
unfoldable pub connected_hashes : List ChainEvent → List (List ℕ)
connected_hashes [] = []
connected_hashes (block_connected at hash count ∷ events) = hash ∷ connected_hashes events
connected_hashes (block_disconnected at hash ∷ events) = connected_hashes events
connected_hashes (chain_reorg depth old_tip new_tip ∷ events) = connected_hashes events
connected_hashes (orphan_added hash size ∷ events) = connected_hashes events
connected_hashes (orphan_evicted hash reason ∷ events) = connected_hashes events

unfoldable pub disconnected_hashes : List ChainEvent → List (List ℕ)
disconnected_hashes [] = []
disconnected_hashes (block_connected at hash count ∷ events) = disconnected_hashes events
disconnected_hashes (block_disconnected at hash ∷ events) = hash ∷ disconnected_hashes events
disconnected_hashes (chain_reorg depth old_tip new_tip ∷ events) = disconnected_hashes events
disconnected_hashes (orphan_added hash size ∷ events) = disconnected_hashes events
disconnected_hashes (orphan_evicted hash reason ∷ events) = disconnected_hashes events

-- The blocks of `hashes` that the chain knows.
unfoldable pub known_blocks : Chain → List (List ℕ) → List Block
known_blocks chain [] = []
known_blocks chain (hash ∷ hashes) =
    let rest = known_blocks chain hashes in
    elim (block_by_hash chain hash) [ some block ↦ block ∷ rest | none ↦ rest ]

-- `active_block_at` for each height up to that of the chain.
unfoldable pub active_blocks : Chain → List Block
active_blocks chain = take (suc (height chain)) (reverse chain.blocks)

module _ (crypto : Primitives) where
  unfoldable pub others : List ℕ → List MempoolEntry → List MempoolEntry
  others id [] = []
  others id (entry ∷ entries) =
      let rest = others id entries in
      if holds (bytes_discrete (txid crypto entry.tx) id) then rest else entry ∷ rest

  unfoldable pub is_valid_tx : Mempool → Transaction → UtxoSet → Bool
  is_valid_tx pool tx chain_utxo =
      is_valid_for_view crypto tx
        (apply_all crypto chain_utxo (others (txid crypto tx) (ordered pool.entries)))

  unfoldable pub remove_for_block : Mempool → Block → Option Mempool
  remove_for_block pool block =
      let confirmed = map (txid crypto) block.transactions in
      let spent = block_spends block.transactions in
      (do
        removed ← mark_all (suc (len pool)) spent pool.entries confirmed
        some (remove_entries pool removed))

  unfoldable pub remove_for_blocks : Mempool → List Block → Option Mempool
  remove_for_blocks pool [] = some pool
  remove_for_blocks pool (block ∷ blocks) = do
    pool₁ ← remove_for_block pool block
    remove_for_blocks pool₁ blocks

  unfoldable pub find_invalid : UtxoSet → List MempoolEntry → List (List ℕ)
  find_invalid view [] = []
  find_invalid view (entry ∷ entries) =
      let valid = is_valid_for_view crypto entry.tx view in
      let rest =
        find_invalid (if valid then (apply_transaction crypto view entry.tx).0 else view) entries in
      if valid then rest else txid crypto entry.tx ∷ rest

  unfoldable pub find_invalid_txids : Mempool → UtxoSet → List (List ℕ)
  find_invalid_txids pool chain_utxo = find_invalid chain_utxo (ordered pool.entries)

  -- Each round but the last removes an entry, as every entry stands under its own hash.
  unfoldable pub revalidate : ℕ → Mempool → UtxoSet → Option Mempool
  revalidate zero pool chain_utxo = none
  revalidate (suc fuel) pool chain_utxo =
      let invalid = find_invalid_txids pool chain_utxo in
      let rest = revalidate fuel (remove_entries pool invalid) chain_utxo in
      if length invalid == 0 then some pool else rest

  unfoldable pub revalidate_pool : Mempool → UtxoSet → Option Mempool
  revalidate_pool pool chain_utxo = revalidate (suc (len pool)) pool chain_utxo

  abbrev pub offered :
      Transaction
      → Result MempoolError AcceptedTx
      → List Transaction × Bool
      → List Transaction × Bool
  offered tx (ok accepted) (remaining, progress) = (remaining, true)
  offered tx (err e) (remaining, progress) = (tx ∷ remaining, progress)

  -- One pass over the candidates: the pool, those that are left, and whether one was accepted.
  unfoldable pub offer :
      List Transaction → Mempool → UtxoSet → Option (Mempool × (List Transaction × Bool))
  offer [] pool chain_utxo = some (pool, ([], false))
  offer (tx ∷ txs) pool chain_utxo = do
    (pool₁, result) ← accept_tx crypto pool tx chain_utxo
    (pool₂, left) ← offer txs pool₁ chain_utxo
    some (pool₂, offered tx result left)

  -- Each round but the last accepts a candidate.
  unfoldable pub restore_rounds : ℕ → List Transaction → Mempool → UtxoSet → Option Mempool
  restore_rounds zero pending pool chain_utxo = none
  restore_rounds (suc fuel) pending pool chain_utxo = do
    (pool₁, left) ← offer pending pool chain_utxo
    let rest = restore_rounds fuel (left.0) pool₁ chain_utxo
    if not left.1 || (length left.0 == 0) then some pool₁ else rest

  unfoldable pub restore_candidates : Mempool → List Transaction → UtxoSet → Option Mempool
  restore_candidates pool candidates chain_utxo =
      restore_rounds (suc (length candidates)) candidates pool chain_utxo

  unfoldable pub synchronize_to_chain : Mempool → UtxoSet → List Block → List Block → Option Mempool
  synchronize_to_chain pool chain_utxo connected_blocks disconnected_blocks = do
    pool₁ ← remove_for_blocks pool connected_blocks
    pool₂ ← revalidate_pool pool₁ chain_utxo
    restore_candidates pool₂ (candidates_of disconnected_blocks) chain_utxo

  abbrev pub recovered :
      Mempool
      → Chain
      → Result DisconnectedBlockRecoveryError (List Block)
      → Option (Mempool × Result DisconnectedBlockRecoveryError (Unit {0}))
  recovered pool chain (err e) = some (pool, err e)
  recovered pool chain (ok disconnected) = do
    pool₁ ← synchronize_to_chain pool chain.utxo (active_blocks chain) disconnected
    some (pool₁, ok tt)

  -- `MempoolResyncError` has the recovery error only.
  unfoldable pub resync_to_active_chain :
      Mempool → Chain → ℕ → Option (Mempool × Result DisconnectedBlockRecoveryError (Unit {0}))
  resync_to_active_chain pool chain since_event_seq =
      recovered pool chain (recovery_disconnected_blocks chain since_event_seq)

  abbrev pub served : Mempool → List ℕ → UtxoSet → Option Transaction → Mempool × Option Transaction
  served pool id chain_utxo none = (pool, none)
  served pool id chain_utxo (some tx) =
      if is_valid_tx pool tx chain_utxo then (pool, some tx) else (remove_entry pool id, none)

  unfoldable pub serve_transaction : Mempool → List ℕ → UtxoSet → Mempool × Option Transaction
  serve_transaction pool id chain_utxo = served pool id chain_utxo (get_transaction pool id)

  unfoldable pub apply_chain_events : Mempool → List ChainEvent → Chain → Option Mempool
  apply_chain_events pool events chain =
      synchronize_to_chain pool chain.utxo (known_blocks chain (connected_hashes events))
        (known_blocks chain (disconnected_hashes events))
