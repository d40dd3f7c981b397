-- ===== src/Transaction/Decode.antt =====
-- `decode_from` of crates/bitrst-core/src/transaction.rs.
use bitrst.Base.{ℕ, zero, suc, List, [], ◌∷◌, ◌++◌}
use bitrst.Wire.Reader.{
  Decoder, ◌>>=◌, pure, read_bytes, read_u32, read_i32, read_u64, read_limited_len,
}
use bitrst.Transaction.Types.{TxInput, TxOutput, Transaction}
use bitrst.Limits.{max_script_size, max_transaction_inputs, max_transaction_outputs}

unfoldable pub decode_input : Decoder TxInput
decode_input = do
  previous_output ← read_bytes 32 "previous output hash"
  index ← read_u32 "previous output index"
  script_len ← read_limited_len "scriptSig" max_script_size
  script_sig ← read_bytes script_len "scriptSig"
  sequence ← read_u32 "input sequence"
  pure (record {
    previous_output = previous_output;
    index = index;
    script_sig = script_sig;
    sequence = sequence;
  })

unfoldable pub decode_output : Decoder TxOutput
decode_output = do
  value ← read_u64 "output value"
  script_len ← read_limited_len "scriptPubKey" max_script_size
  script_pubkey ← read_bytes script_len "scriptPubKey"
  pure (record { value = value; script_pubkey = script_pubkey })

-- `for _ in 0..count { items.push(item) }`
unfoldable pub decode_many : {A : Type 0} → Decoder A → ℕ → List A → Decoder (List A)
decode_many item zero items = pure items
decode_many item (suc count) items = do x ← item; decode_many item count (items ++ (x ∷ []))

unfoldable pub decode_from : Decoder Transaction
decode_from = do
  version ← read_i32 "transaction version"
  input_count ← read_limited_len "transaction input count" max_transaction_inputs
  inputs ← decode_many decode_input input_count []
  output_count ← read_limited_len "transaction output count" max_transaction_outputs
  outputs ← decode_many decode_output output_count []
  lock_time ← read_u32 "transaction locktime"
  pure (record { version = version; inputs = inputs; outputs = outputs; lock_time = lock_time })
