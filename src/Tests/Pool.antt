-- ===== src/Tests/Pool.antt =====
-- The pool before and after one transaction.
use bitrst.Base.{◌≡◌, refl, [], ◌∷◌, some, Result, ok, arith}
use bitrst.Base.Map
use bitrst.Sighash.{sighash_all, unsigned, sighash_all-unsigned}
use bitrst.Transaction.Encode.{txid}
use bitrst.Utxo.Validate.{input_sum, output_sum, output_sum_from, validate_transaction}
use bitrst.Utxo.Types.{UtxoSet, checked_add}
use bitrst.Mempool.Types.{Mempool, MempoolError, AcceptedTx, new, default, len, contains}
use bitrst.Mempool.Validate.{
  validate_tx_structure, check_input_scripts, check_output_scripts, check_duplicate_inputs,
  check_unseen, compute_fee, prev_scripts, verify_input, verify_inputs, verify_scripts,
}
use bitrst.Mempool.Pool.{
  ordered, apply_all, build_validation_view, check_mempool_conflicts, would_exceed_limits,
  insert_entry, make_room, make_room_for, check_tx, candidate_of, accept_tx,
}
use bitrst.Mempool.Accounts.{Accounted}
use bitrst.Mempool.Bounds.{Bounded, accept_tx_total}
use bitrst.Mempool.Spends.{Held}
use bitrst.Mempool.Sync.{revalidate_pool}
use bitrst.Mempool.Keyed.{Keyed, accept_tx-Keyed}
use bitrst.Mempool.Cleared.{Cleared}
use bitrst.Mempool.Revalidate.{Settled, revalidate_pool_total}
use bitrst.Mempool.DoubleSpends.{accept_tx-Held}
use bitrst.Mempool.Accepted.{Sound, accept_tx-Sound}
use bitrst.Tests.Data.{toy, spend}
use bitrst.Tests.Ledger.{unspent, lookups}

abbrev no_outputs : UtxoSet
no_outputs = record { entries = [] }

abbrev empty : Mempool
empty = new default

empty-Accounted : Accounted empty
unfolding new
empty-Accounted = record { distinct = tt; bytes = refl }

accept_tx_total_example :
    (after : Mempool) × (outcome : Result MempoolError AcceptedTx) × (accept_tx toy empty spend
        unspent
      ≡ some (after, outcome))
    × (after.limits ≡ empty.limits)
    × Accounted after
    × Bounded after outcome
accept_tx_total_example = accept_tx_total toy empty spend unspent empty-Accounted

abbrev accepted : AcceptedTx
accepted = record { txid = txid toy spend; fee = 100; size = 71 }

abbrev filled : Mempool
filled = insert_entry empty (txid toy spend) (candidate_of empty spend 71 100)

accept_runs : accept_tx toy empty spend unspent ≡ some (filled, ok accepted)
unfolding lookups accept_tx check_tx validate_tx_structure check_input_scripts check_output_scripts
    check_duplicate_inputs check_unseen contains check_mempool_conflicts build_validation_view
    ordered apply_all validate_transaction input_sum output_sum output_sum_from checked_add
    compute_fee verify_scripts prev_scripts verify_inputs verify_input make_room_for make_room
    would_exceed_limits len new
accept_runs = refl

accept_tx-Sound_example : Sound toy spend (build_validation_view toy empty unspent) accepted
accept_tx-Sound_example = accept_tx-Sound toy empty filled spend unspent accepted accept_runs

empty-Held : Held empty
unfolding new Map.get
empty-Held = record { owner = λ id entry h. absurd (ground arith) }

accept_tx-Held_example : Held filled
accept_tx-Held_example =
    accept_tx-Held toy empty filled spend unspent (ok accepted) empty-Held accept_runs

filled-Accounted : Accounted filled
unfolding new insert_entry Map.insert Map.remove Map.get
filled-Accounted = record { distinct = (refl, tt); bytes = refl }

empty-Keyed : Keyed toy empty
unfolding new
empty-Keyed = record { own = tt }

filled-Keyed : Keyed toy filled
filled-Keyed = accept_tx-Keyed toy empty filled spend unspent (ok accepted) empty-Keyed accept_runs

-- On a chain without outputs.
revalidate_pool_total_example :
    (after : Mempool) × (revalidate_pool toy filled no_outputs ≡ some after)
    × Settled toy no_outputs filled after
revalidate_pool_total_example =
    revalidate_pool_total toy filled no_outputs filled-Keyed filled-Accounted

sighash_all-unsigned_example :
    sighash_all toy (unsigned spend) 0 ([] ∷ []) ≡ sighash_all toy spend 0 ([] ∷ [])
sighash_all-unsigned_example = sighash_all-unsigned toy spend 0 ([] ∷ [])
