-- ===== src/Mempool/Validate.antt =====
-- The checks of crates/bitrst-core/src/mempool.rs on a single transaction.
use bitrst.Base.{
  ℕ, suc, ◌-◌, List, [], ◌∷◌, length, Option, none, some, Bool, true, false, not, ◌&&◌, ltb, ◌==◌,
  if◌then◌else◌, Result, ok, err, ◌>>=◌, ◌>>◌, ok_or, reject_if, map_err,
}
use bitrst.Base.Keys.{elem}
use bitrst.Crypto.{Primitives}
use bitrst.Limits.{max_script_size, max_transaction_serialized_size}
use bitrst.Sighash.{sighash_all}
use bitrst.Script.Stack.{ScriptError}
use bitrst.Script.Interpreter.{verify_script}
use bitrst.Transaction.Types.{TxInput, TxOutput, Transaction}
use bitrst.Transaction.Encode.{serialized_size, txid}
use bitrst.Utxo.Types.{
  OutPoint, UtxoSet, missing_input, input_output_mismatch, get, outpoint_of, outpoint_discrete,
  is_coinbase,
}
use bitrst.Utxo.Validate.{input_sum, output_sum, validate_transaction}
use bitrst.Mempool.Types.{
  MempoolError, duplicate_input, oversized, malformed, utxo, invalid_script, sighash,
}

unfoldable pub check_input_scripts : List TxInput → Result MempoolError (Unit {0})
check_input_scripts [] = ok tt
check_input_scripts (input ∷ inputs) = do
  reject_if (ltb max_script_size (length input.script_sig))
      (malformed "scriptSig exceeds maximum size")
  check_input_scripts inputs

unfoldable pub check_output_scripts : List TxOutput → Result MempoolError (Unit {0})
check_output_scripts [] = ok tt
check_output_scripts (output ∷ outputs) = do
  reject_if (ltb max_script_size (length output.script_pubkey))
      (malformed "scriptPubKey exceeds maximum size")
  check_output_scripts outputs

unfoldable pub validate_tx_structure : Transaction → Result MempoolError ℕ
validate_tx_structure tx = do
  reject_if (ltb max_transaction_serialized_size (serialized_size tx))
      (oversized (serialized_size tx) max_transaction_serialized_size)
  reject_if (length tx.outputs == 0) (malformed "transaction has no outputs")
  reject_if (not (is_coinbase tx) && (length tx.inputs == 0))
      (malformed "non-coinbase transaction has no inputs")
  check_input_scripts tx.inputs
  check_output_scripts tx.outputs
  ok (serialized_size tx)

-- The loop of `check_duplicate_inputs`; `seen` is the set of the outpoints before.
unfoldable pub check_unseen : List ℕ → List TxInput → List OutPoint → Result MempoolError (Unit {0})
check_unseen id [] seen = ok tt
check_unseen id (input ∷ inputs) seen = do
  reject_if (elem outpoint_discrete (outpoint_of input) seen) (duplicate_input id input.index)
  check_unseen id inputs (outpoint_of input ∷ seen)

-- What the inputs are worth less what the outputs are.
unfoldable pub compute_fee : Transaction → UtxoSet → Result MempoolError ℕ
compute_fee tx view = do
  inputs ← map_err utxo (input_sum view tx.inputs 0)
  outputs ← map_err utxo (output_sum tx)
  reject_if (ltb inputs outputs) (utxo (input_output_mismatch inputs outputs))
  ok (inputs - outputs)

-- The scripts of the outputs that the inputs spend.
unfoldable pub prev_scripts : List TxInput → UtxoSet → Result MempoolError (List (List ℕ))
prev_scripts [] view = ok []
prev_scripts (input ∷ inputs) view = do
  entry ←
      ok_or (get view (outpoint_of input)) (utxo (missing_input input.previous_output input.index))
  scripts ← prev_scripts inputs view
  ok (entry.script_pubkey ∷ scripts)

-- The interpreter's verdict; it has one for any two scripts.
abbrev pub verdict : Option (Result ScriptError (Unit {0})) → Result MempoolError (Unit {0})
verdict none = err invalid_script
verdict (some (err e)) = err invalid_script
verdict (some (ok done)) = ok tt

module _ (crypto : Primitives) where
  unfoldable pub check_duplicate_inputs : Transaction → Result MempoolError (Unit {0})
  check_duplicate_inputs tx = check_unseen (txid crypto tx) tx.inputs []

  -- One input against the script it spends; an empty script is skipped.
  unfoldable pub verify_input :
      Transaction → List (List ℕ) → ℕ → TxInput → List ℕ → Result MempoolError (Unit {0})
  verify_input tx scripts input_index input script_pubkey =
      if length script_pubkey == 0 then ok tt else (do
        hash ← map_err sighash (sighash_all crypto tx input_index scripts)
        verdict (verify_script crypto hash input.script_sig script_pubkey))

  unfoldable pub verify_inputs :
      Transaction
      → List (List ℕ)
      → ℕ
      → List TxInput
      → List (List ℕ)
      → Result MempoolError (Unit {0})
  verify_inputs tx scripts input_index [] rest = ok tt
  verify_inputs tx scripts input_index (input ∷ inputs) [] = ok tt
  verify_inputs tx scripts input_index (input ∷ inputs) (script ∷ rest) = do
    verify_input tx scripts input_index input script
    verify_inputs tx scripts (suc input_index) inputs rest

  unfoldable pub verify_scripts : Transaction → UtxoSet → Result MempoolError (Unit {0})
  verify_scripts tx view = do
    scripts ← prev_scripts tx.inputs view
    verify_inputs tx scripts 0 tx.inputs scripts

  abbrev pub is_ok {ℓ} : {E : Type 0} {A : Type ℓ} → Result E A → Bool
  is_ok (ok a) = true
  is_ok (err e) = false

  unfoldable pub is_valid_for_view : Transaction → UtxoSet → Bool
  is_valid_for_view tx view =
      is_ok (validate_tx_structure tx)
      && not (is_coinbase tx)
      && is_ok (check_duplicate_inputs tx)
      && is_ok (validate_transaction view tx)
      && is_ok (verify_scripts tx view)
