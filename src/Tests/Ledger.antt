-- ===== src/Tests/Ledger.antt =====
-- The unspent outputs around one transaction.
use bitrst.Base.{◌+◌, ◌-◌, ◌^◌, ◌≤◌, ◌≡◌, ◌↔◌, refl, [], ◌∷◌, false, ok, arith}
use bitrst.Base.Map
use bitrst.Base.Map.{Distinct}
use bitrst.Base.Keys.{bytes_discrete}
use bitrst.Crypto.{sha256d}
use bitrst.Transaction.Encode.{txid}
use bitrst.Utxo.Types.{
  OutPoint, UtxoSet, get, get_value, outpoint_discrete, is_coinbase, checked_add,
}
use bitrst.Utxo.Validate.{validate_transaction, input_sum, output_sum, output_sum_from}
use bitrst.Utxo.Apply.{apply_transaction, disconnect_undo}
use bitrst.Utxo.Sums.{Spendable, IsUnspent, value_in, value_out, validate_transaction_iff}
use bitrst.Utxo.Undo.{IsFresh, disconnect_undo-apply_transaction}
use bitrst.Utxo.Value.{supply, supply-apply_transaction, supply_le}
use bitrst.Tests.Data.{toy, parent_id, spend}
use bitrst.Tests.Codec.{program}

abbrev spent_outpoint : OutPoint
spent_outpoint = record { txid = parent_id; index = 0 }

abbrev pub unspent : UtxoSet
unspent = record { entries = (spent_outpoint, record { value = 1000; script_pubkey = [] }) ∷ [] }

unfoldable pub lookups : Unit {0}
unfolding program bitrst.Wire.Bytes.from_le_bytes txid sha256d get get_value outpoint_discrete
    Map.get is_coinbase bytes_discrete
lookups = tt

spend-IsFresh : IsFresh toy unspent spend
unfolding lookups
spend-IsFresh i lt = refl

spend_plain : is_coinbase spend ≡ false
unfolding lookups
spend_plain = refl

spend_unspent : IsUnspent unspent (record {
  previous_output = parent_id;
  index = 0;
  script_sig = 0x51 ∷ [];
  sequence = 2 ^ 32 - 1;
})
unfolding lookups
spend_unspent = (1000, refl)

spend_valid : validate_transaction unspent spend ≡ ok tt
unfolding lookups validate_transaction input_sum output_sum output_sum_from checked_add
spend_valid = refl

disconnect_undo-apply_transaction_example :
    get
      (disconnect_undo
        (apply_transaction toy unspent spend).0
        (apply_transaction toy unspent spend).1)
      spent_outpoint
    ≡ get unspent spent_outpoint
disconnect_undo-apply_transaction_example =
    disconnect_undo-apply_transaction toy unspent spend spend-IsFresh spent_outpoint

validate_transaction_iff_example :
    (validate_transaction unspent spend ≡ ok tt) ↔ Spendable unspent spend
validate_transaction_iff_example = validate_transaction_iff unspent spend spend_plain

supply-apply_transaction_example :
    (supply (apply_transaction toy unspent spend).0 + value_in unspent spend.inputs
      ≡ supply unspent + value_out spend.outputs)
    × Distinct outpoint_discrete (apply_transaction toy unspent spend).0.entries
supply-apply_transaction_example =
    supply-apply_transaction toy unspent spend spend_plain (unfold Map.get in refl, tt) (tt, tt)
      (spend_unspent, tt) (omega arith) spend-IsFresh

supply_le_example : supply (apply_transaction toy unspent spend).0 ≤ supply unspent
supply_le_example =
    supply_le toy unspent spend spend_plain (unfold Map.get in refl, tt) (tt, tt) (omega arith)
      spend-IsFresh spend_valid
