-- ===== src/Utxo/Validate.antt =====
-- `validate_transaction` of crates/bitrst-core/src/utxo.rs.
use bitrst.Base.{ℕ, List, [], ◌∷◌, ltb, if◌then◌else◌, Result, ok, err, ◌>>=◌, ok_or}
use bitrst.Transaction.Types.{TxInput, TxOutput, Transaction}
use bitrst.Utxo.Types.{
  UtxoSet, UtxoError, missing_input, value_overflow, input_output_mismatch, get_value, outpoint_of,
  is_coinbase, checked_add,
}

-- The loop over the inputs; `sum_in` is what it has added up.
unfoldable pub input_sum : UtxoSet → List TxInput → ℕ → Result UtxoError ℕ
input_sum set [] sum_in = ok sum_in
input_sum set (input ∷ inputs) sum_in = do
  value ←
      ok_or (get_value set (outpoint_of input)) (missing_input input.previous_output input.index)
  sum ← ok_or (checked_add sum_in value) value_overflow
  input_sum set inputs sum

unfoldable pub output_sum_from : List TxOutput → ℕ → Result UtxoError ℕ
output_sum_from [] sum_out = ok sum_out
output_sum_from (output ∷ outputs) sum_out = do
  sum ← ok_or (checked_add sum_out output.value) value_overflow
  output_sum_from outputs sum

unfoldable pub output_sum : Transaction → Result UtxoError ℕ
output_sum tx = output_sum_from tx.outputs 0

unfoldable pub validate_output_sum : Transaction → Result UtxoError (Unit {0})
validate_output_sum tx = do sum ← output_sum tx; ok tt

unfoldable pub validate_transaction : UtxoSet → Transaction → Result UtxoError (Unit {0})
validate_transaction set tx = if is_coinbase tx then validate_output_sum tx else (do
  sum_in ← input_sum set tx.inputs 0
  sum_out ← output_sum tx
  if ltb sum_in sum_out then err (input_output_mismatch sum_in sum_out) else ok tt)
