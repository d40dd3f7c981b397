-- ===== src/Transaction/Size.antt =====
-- `serialized_size` of crates/bitrst-core/src/transaction.rs against the bytes that are written.
use bitrst.Base.{◌≡◌, refl, List, [], ◌∷◌, length, length-append, All, arith}
use bitrst.Wire.Bytes.{length-to_le_bytes}
use bitrst.Wire.CompactSize.{length-compact_size}
use bitrst.Transaction.Types.{TxInput, TxOutput, Transaction, IsTxInput, IsTransaction}
use bitrst.Transaction.Encode.{
  serialize, serialized_size, input_size, output_size, sum_by, concat_by, encode, encode_input,
  encode_output, serialize-encode,
}

ruleset lengths = (length-append, length-to_le_bytes, length-compact_size)

length-encode_input :
    (input : TxInput) → IsTxInput input → length (encode_input input) ≡ input_size input
unfolding encode_input input_size
length-encode_input input h = simp lengths (omega (arith, h.previous_output.size))

length-encode_output : (output : TxOutput) → length (encode_output output) ≡ output_size output
unfolding encode_output output_size
length-encode_output output = simp lengths (omega arith)

length-inputs :
    (inputs : List TxInput)
    → All IsTxInput inputs
    → length (concat_by encode_input inputs) ≡ sum_by input_size inputs
length-inputs [] h = refl
length-inputs (input ∷ inputs) h =
    rw (length-append, length-encode_input input h.0, length-inputs inputs h.1)

length-outputs :
    (outputs : List TxOutput)
    → length (concat_by encode_output outputs) ≡ sum_by output_size outputs
length-outputs [] = refl
length-outputs (output ∷ outputs) =
    rw (length-append, length-encode_output output, length-outputs outputs)

-- The analytic size of a transaction that its types admit is the number of bytes that
-- serializing it writes.
pub length-serialize :
    (tx : Transaction) → IsTransaction tx → length (serialize tx) ≡ serialized_size tx
unfolding encode serialized_size
length-serialize tx h =
    rw serialize-encode (
      simp lengths (rw (length-inputs tx.inputs h.inputs, length-outputs tx.outputs) (omega arith)))
