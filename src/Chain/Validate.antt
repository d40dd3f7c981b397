-- ===== src/Chain/Validate.antt =====
-- The checks of crates/bitrst-core/src/chain.rs on a block.
use bitrst.Base.{
  ℕ, zero, suc, List, [], ◌∷◌, length, Option, none, some, ltb, ◌==◌, if◌then◌else◌, Result, ok,
  err, ◌>>=◌, ◌>>◌, ok_or, reject_if, map_err,
}
use bitrst.Base.Map
use bitrst.Base.Keys.{bytes_discrete, elem}
use bitrst.Crypto.{Primitives}
use bitrst.Limits.{max_block_serialized_size, max_transactions_per_block, max_script_size}
use bitrst.Block.Types.{Block}
use bitrst.Block.Encode.{serialized_size}
use bitrst.Script.Stack.{ScriptError}
use bitrst.Script.Interpreter.{verify_script}
use bitrst.Sighash.{sighash_all}
use bitrst.Transaction.Types.{TxInput, TxOutput, Transaction}
use bitrst.Utxo.Types.{
  OutPoint, UtxoSet, missing_input, duplicate_spend, get, outpoint_of, outpoint_discrete,
  is_coinbase,
}
use bitrst.Utxo.Validate.{validate_transaction}
use bitrst.Utxo.Apply.{apply_transaction}
use bitrst.Chain.Types

abbrev pub Checked : Type 0 → Type 0
Checked = Result Types.ChainError

unfoldable pub check_input_scripts : List TxInput → Checked (Unit {0})
check_input_scripts [] = ok tt
check_input_scripts (input ∷ inputs) = do
  reject_if (ltb max_script_size (length input.script_sig)) Types.script_too_large
  check_input_scripts inputs

unfoldable pub check_output_scripts : List TxOutput → Checked (Unit {0})
check_output_scripts [] = ok tt
check_output_scripts (output ∷ outputs) = do
  reject_if (ltb max_script_size (length output.script_pubkey)) Types.script_too_large
  check_output_scripts outputs

unfoldable pub check_scripts : List Transaction → Checked (Unit {0})
check_scripts [] = ok tt
check_scripts (tx ∷ txs) = do
  check_input_scripts tx.inputs
  check_output_scripts tx.outputs
  check_scripts txs

unfoldable pub validate_block_limits : Block → Checked (Unit {0})
validate_block_limits block = do
  reject_if (ltb max_block_serialized_size (serialized_size block)) Types.block_too_large
  reject_if (ltb max_transactions_per_block (length block.transactions)) Types.too_many_transactions
  check_scripts block.transactions

-- The loop over a transaction's inputs; `spent` is the set of the outpoints that the block has
-- spent so far.
unfoldable pub spend_once : List TxInput → List OutPoint → Checked (List OutPoint)
spend_once [] spent = ok spent
spend_once (input ∷ inputs) spent = do
  reject_if (elem outpoint_discrete (outpoint_of input) spent)
      (Types.utxo (duplicate_spend input.previous_output input.index))
  spend_once inputs (outpoint_of input ∷ spent)

-- The scripts of the outputs that the inputs spend.
unfoldable pub prev_scripts : List TxInput → UtxoSet → Checked (List (List ℕ))
prev_scripts [] view = ok []
prev_scripts (input ∷ inputs) view = do
  entry ←
      ok_or (get view (outpoint_of input))
        (Types.utxo (missing_input input.previous_output input.index))
  scripts ← prev_scripts inputs view
  ok (entry.script_pubkey ∷ scripts)

-- The interpreter's verdict; it has one for any two scripts.
abbrev pub verdict : Option (Result ScriptError (Unit {0})) → Checked (Unit {0})
verdict none = err Types.invalid_script
verdict (some (err e)) = err Types.invalid_script
verdict (some (ok done)) = ok tt

module _ (crypto : Primitives) where
  unfoldable pub verify_inputs :
      Transaction → List (List ℕ) → ℕ → List TxInput → List (List ℕ) → Checked (Unit {0})
  verify_inputs tx scripts input_index [] rest = ok tt
  verify_inputs tx scripts input_index (input ∷ inputs) [] = ok tt
  verify_inputs tx scripts input_index (input ∷ inputs) (script ∷ rest) = do
    if length script == 0 then ok tt else (do
      digest ← map_err Types.sighash (sighash_all crypto tx input_index scripts)
      verdict (verify_script crypto digest input.script_sig script))
    verify_inputs tx scripts (suc input_index) inputs rest

  unfoldable pub verify_scripts : Transaction → UtxoSet → Checked (Unit {0})
  verify_scripts tx view = do
    scripts ← prev_scripts tx.inputs view
    verify_inputs tx scripts 0 tx.inputs scripts

  -- One transaction of the block against the outputs of the chain and of those before it.
  unfoldable pub check_transaction : Transaction → UtxoSet → List OutPoint → Checked (List OutPoint)
  check_transaction tx view spent = do
    spent' ← if is_coinbase tx then ok spent else spend_once tx.inputs spent
    map_err Types.utxo (validate_transaction view tx)
    if is_coinbase tx then ok tt else verify_scripts tx view
    ok spent'

  unfoldable pub check_transactions :
      List Transaction → UtxoSet → List OutPoint → Checked (Unit {0})
  check_transactions [] view spent = ok tt
  check_transactions (tx ∷ txs) view spent = do
    spent' ← check_transaction tx view spent
    check_transactions txs (apply_transaction crypto view tx).0 spent'

  unfoldable pub validate_block_transactions_for_utxo : Block → UtxoSet → Checked (Unit {0})
  validate_block_transactions_for_utxo block utxo = check_transactions block.transactions utxo []

-- `for _ in 0..11`, over the known blocks from `block_hash` down.
unfoldable pub past_times : ℕ → Types.Chain → List ℕ → List ℕ
past_times zero chain block_hash = []
past_times (suc rounds) chain block_hash = elim (Map.get bytes_discrete block_hash chain.known) [
  | none ↦ []
  | some meta ↦ meta.block.header.time ∷ past_times rounds chain meta.block.header.prev_blockhash
]
