-- ===== src/Mempool/Pool.antt =====
-- The pool of crates/bitrst-core/src/mempool.rs: admission, eviction, removal. A set or map that the
-- source iterates over in an order of its own is a list here; no result depends on the order.
use bitrst.Base.{
  ℕ, zero, suc, ◌+◌, ◌-◌, ◌/◌, ◌%◌, ◌^◌, List, [], ◌∷◌, ◌++◌, Option, none, some, Bool, true, false,
  not, ◌&&◌, ◌||◌, ltb, ◌==◌, if◌then◌else◌, Result, ok, err, ◌>>=◌, ◌>>◌, reject_if, map_err,
}
use bitrst.Base.Map
use bitrst.Base.Map.{Map}
use bitrst.Base.Keys.{bytes_discrete, holds, elem}
use bitrst.Crypto.{Primitives}
use bitrst.Transaction.Types.{TxInput, Transaction}
use bitrst.Transaction.Encode.{txid}
use bitrst.Utxo.Types.{OutPoint, UtxoSet, outpoint_of, outpoint_discrete, is_coinbase}
use bitrst.Utxo.Validate.{validate_transaction}
use bitrst.Utxo.Apply.{apply_transaction}
use bitrst.Mempool.Types.{
  MempoolEntry, Mempool, MempoolError, AcceptedTx, coinbase_rejected, duplicate, utxo,
  conflicting_spend, at_capacity, len, contains,
}
use bitrst.Mempool.Validate.{
  validate_tx_structure, check_duplicate_inputs, compute_fee, verify_scripts,
}

abbrev pub Entries : Type 0
Entries = Map (List ℕ) MempoolEntry

abbrev pub Spends : Type 0
Spends = Map OutPoint (List ℕ)

-- `sort_by_key(|entry| entry.seq)`, by insertion.
abbrev pub insert_by_seq : MempoolEntry → List MempoolEntry → List MempoolEntry
insert_by_seq entry [] = entry ∷ []
insert_by_seq entry (next ∷ rest) =
    let later = insert_by_seq entry rest in
    if ltb next.seq entry.seq then next ∷ later else entry ∷ next ∷ rest

unfoldable pub ordered : Entries → List MempoolEntry
ordered [] = []
ordered ((id, entry) ∷ entries) = insert_by_seq entry (ordered entries)

unfoldable pub apply_all : Primitives → UtxoSet → List MempoolEntry → UtxoSet
apply_all crypto view [] = view
apply_all crypto view (entry ∷ entries) =
    apply_all crypto (apply_transaction crypto view entry.tx).0 entries

unfoldable pub build_validation_view : Primitives → Mempool → UtxoSet → UtxoSet
build_validation_view crypto pool chain_utxo = apply_all crypto chain_utxo (ordered pool.entries)

unfoldable pub check_mempool_conflicts : Spends → List TxInput → Result MempoolError (Unit {0})
check_mempool_conflicts spends [] = ok tt
check_mempool_conflicts spends (input ∷ inputs) =
    let rest = check_mempool_conflicts spends inputs in
    elim (Map.get outpoint_discrete (outpoint_of input) spends) [
      | some existing_txid ↦ err (conflicting_spend (outpoint_of input) existing_txid)
      | none ↦ rest
    ]

unfoldable pub would_exceed_limits : Mempool → ℕ → Bool
would_exceed_limits pool incoming_size =
    ltb pool.limits.max_tx_count (len pool + 1)
    || ltb pool.limits.max_bytes (pool.total_bytes + incoming_size)

-- `left.fee_rate.cmp(&right.fee_rate).then(left.seq.cmp(&right.seq))` is not greater.
abbrev pub at_most : MempoolEntry → MempoolEntry → Bool
at_most left right =
    ltb left.fee_rate right.fee_rate
    || (left.fee_rate == right.fee_rate) && not (ltb right.seq left.seq)

abbrev pub lower :
    List ℕ × MempoolEntry → Option (List ℕ × MempoolEntry) → Option (List ℕ × MempoolEntry)
lower first none = some first
lower (id, entry) (some (id', entry')) =
    if at_most entry entry' then some (id, entry) else some (id', entry')

-- `min_by`: the first of the lowest entries.
unfoldable pub lowest_entry : Entries → Option (List ℕ × MempoolEntry)
lowest_entry [] = none
lowest_entry (first ∷ entries) = lower first (lowest_entry entries)

abbrev pub key_of : Option (List ℕ × MempoolEntry) → Option (List ℕ)
key_of none = none
key_of (some (id, entry)) = some id

unfoldable pub lowest_priority_txid : Mempool → Option (List ℕ)
lowest_priority_txid pool = key_of (lowest_entry pool.entries)

abbrev pub outranks : MempoolEntry → Option MempoolEntry → Bool
outranks candidate none = false
outranks candidate (some entry) =
    if ltb entry.fee_rate candidate.fee_rate
    then true
    else (if ltb candidate.fee_rate entry.fee_rate then false else ltb entry.seq candidate.seq)

unfoldable pub should_evict : Mempool → List ℕ → MempoolEntry → Bool
should_evict pool victim candidate = outranks candidate (Map.get bytes_discrete victim pool.entries)

abbrev pub claim : List ℕ → List TxInput → Spends → Spends
claim id [] spends = spends
claim id (input ∷ inputs) spends =
    claim id inputs (Map.insert outpoint_discrete (outpoint_of input) id spends)

-- The sum of the sizes does not wrap: it stands for bytes in memory.
unfoldable pub insert_entry : Mempool → List ℕ → MempoolEntry → Mempool
insert_entry pool id entry = record pool {
  total_bytes = pool.total_bytes + entry.size;
  next_seq = (pool.next_seq + 1) % 2 ^ 64;
  spends = claim id entry.tx.inputs pool.spends;
  entries = Map.insert bytes_discrete id entry pool.entries;
}

-- `spends.retain(|_, owner| owner != txid)`
unfoldable pub retain_others : List ℕ → Spends → Spends
retain_others id [] = []
retain_others id ((outpoint, owner) ∷ spends) =
    let rest = retain_others id spends in
    if holds (bytes_discrete owner id) then rest else (outpoint, owner) ∷ rest

-- The size is part of the sum, where the sum counts every entry.
abbrev pub remove_found : Mempool → List ℕ → Option MempoolEntry → Mempool
remove_found pool id none = pool
remove_found pool id (some entry) = record pool {
  entries = Map.remove bytes_discrete id pool.entries;
  total_bytes = pool.total_bytes - entry.size;
  spends = retain_others id pool.spends;
}

unfoldable pub remove_entry : Mempool → List ℕ → Mempool
remove_entry pool id = remove_found pool id (Map.get bytes_discrete id pool.entries)

unfoldable pub remove_entries : Mempool → List (List ℕ) → Mempool
remove_entries pool [] = pool
remove_entries pool (id ∷ ids) = remove_entries (remove_entry pool id) ids

-- The owners of spends of `current` that are not among `found`, each once.
unfoldable pub new_owners : List ℕ → Spends → List (List ℕ) → List (List ℕ)
new_owners current [] found = []
new_owners current ((outpoint, owner) ∷ spends) found =
    if holds (bytes_discrete outpoint.txid current) && not (elem bytes_discrete owner found)
    then owner ∷ new_owners current spends (owner ∷ found)
    else new_owners current spends found

-- `while let Some(current) = stack.pop()`; an owner enters the stack once, so that one round
-- for each spend and one for the root are enough.
unfoldable pub descend : ℕ → Spends → List (List ℕ) → List (List ℕ) → List (List ℕ)
descend zero spends stack found = found
descend (suc fuel) spends [] found = found
descend (suc fuel) spends (current ∷ stack) found =
    let fresh = new_owners current spends found in
    descend fuel spends (fresh ++ stack) (fresh ++ found)

unfoldable pub descendants_of : Mempool → List ℕ → List (List ℕ)
descendants_of pool root = descend (suc (Map.size pool.spends)) pool.spends (root ∷ []) []

unfoldable pub remove_entry_and_descendants : Mempool → List ℕ → Mempool
remove_entry_and_descendants pool id = remove_entries pool (id ∷ descendants_of pool id)

-- One round of `make_room_for` once the limits would be exceeded: the pool without the victim
-- and its descendants, or none if the candidate does not outrank the victim.
unfoldable pub evict_lowest : Mempool → MempoolEntry → Option Mempool
evict_lowest pool candidate = elim (lowest_priority_txid pool) [
  | none ↦ none
  | some victim ↦
      if should_evict pool victim candidate
      then some (remove_entry_and_descendants pool victim)
      else none
]

-- `while self.would_exceed_limits(candidate.size)`: the pool as it is left, and the outcome;
-- `none` means that the fuel ran out. What was evicted before an error stays evicted.
unfoldable pub make_room :
    ℕ → Mempool → MempoolEntry → Option (Mempool × Result MempoolError (Unit {0}))
make_room zero pool candidate = none
make_room (suc fuel) pool candidate = elim (would_exceed_limits pool candidate.size) [
  | false ↦ some (pool, ok tt)
  | true ↦ elim (evict_lowest pool candidate) [
    | none ↦ some (pool, err at_capacity)
    | some pool' ↦ make_room fuel pool' candidate
  ]
]

-- Every round evicts an entry at least, and with none left there is no victim.
unfoldable pub make_room_for :
    Mempool → MempoolEntry → Option (Mempool × Result MempoolError (Unit {0}))
make_room_for pool candidate = make_room (suc (len pool)) pool candidate

abbrev pub candidate_of : Mempool → Transaction → ℕ → ℕ → MempoolEntry
candidate_of pool tx size fee = record {
  tx = tx;
  fee_rate = if ltb 0 size then fee / size else 0;
  size = size;
  seq = pool.next_seq;
}

abbrev pub admit :
    List ℕ
    → MempoolEntry
    → ℕ
    → Option (Mempool × Result MempoolError (Unit {0}))
    → Option (Mempool × Result MempoolError AcceptedTx)
admit id candidate fee none = none
admit id candidate fee (some (pool, err e)) = some (pool, err e)
admit id candidate fee (some (pool, ok done)) =
    some
      (insert_entry pool id candidate, ok (record { txid = id; fee = fee; size = candidate.size }))

module _ (crypto : Primitives) where
  -- The checks of `accept_tx` before anything changes: the size and the fee.
  unfoldable pub check_tx : Mempool → Transaction → UtxoSet → Result MempoolError (ℕ × ℕ)
  check_tx pool tx chain_utxo = do
    size ← validate_tx_structure tx
    reject_if (is_coinbase tx) coinbase_rejected
    reject_if (contains pool (txid crypto tx)) (duplicate (txid crypto tx))
    check_duplicate_inputs crypto tx
    check_mempool_conflicts pool.spends tx.inputs
    map_err utxo (validate_transaction (build_validation_view crypto pool chain_utxo) tx)
    fee ← compute_fee tx (build_validation_view crypto pool chain_utxo)
    verify_scripts crypto tx (build_validation_view crypto pool chain_utxo)
    ok (size, fee)

  -- The pool that is left, and the outcome.
  unfoldable pub accept_tx :
      Mempool → Transaction → UtxoSet → Option (Mempool × Result MempoolError AcceptedTx)
  accept_tx pool tx chain_utxo = elim (check_tx pool tx chain_utxo) [
    | err e ↦ some (pool, err e)
    | ok (size, fee) ↦
        let candidate = candidate_of pool tx size fee in
        admit (txid crypto tx) candidate fee (make_room_for pool candidate)
  ]
