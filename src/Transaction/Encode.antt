-- ===== src/Transaction/Encode.antt =====
-- `serialize`, `serialized_size` and `txid` of crates/bitrst-core/src/transaction.rs.
use bitrst.Base.{ℕ, ◌+◌, ◌≡◌, sym, ◌∙◌, List, [], ◌∷◌, ◌++◌, length, append_assoc, append-nil}
use bitrst.Base.Int.{i32_bits}
use bitrst.Wire.Bytes.{to_le_bytes}
use bitrst.Wire.CompactSize.{
  compact_size, write_compact_size, compact_size_encoded_len, write_compact_size-append,
}
use bitrst.Transaction.Types.{TxInput, TxOutput, Transaction}
use bitrst.Crypto.{Primitives, sha256d}

-- One round of each loop of `serialize`; `out` is the vector that is extended.
unfoldable pub write_input : TxInput → List ℕ → List ℕ
write_input input out =
    let out₁ = out ++ input.previous_output in
    let out₂ = out₁ ++ to_le_bytes 4 input.index in
    let out₃ = write_compact_size (length input.script_sig) out₂ in
    let out₄ = out₃ ++ input.script_sig in out₄ ++ to_le_bytes 4 input.sequence

unfoldable pub write_output : TxOutput → List ℕ → List ℕ
write_output output out =
    let out₁ = out ++ to_le_bytes 8 output.value in
    let out₂ = write_compact_size (length output.script_pubkey) out₁ in out₂ ++ output.script_pubkey

unfoldable pub write_inputs : List TxInput → List ℕ → List ℕ
write_inputs [] out = out
write_inputs (input ∷ inputs) out = write_inputs inputs (write_input input out)

unfoldable pub write_outputs : List TxOutput → List ℕ → List ℕ
write_outputs [] out = out
write_outputs (output ∷ outputs) out = write_outputs outputs (write_output output out)

unfoldable pub serialize : Transaction → List ℕ
serialize tx =
    let out₁ = to_le_bytes 4 (i32_bits tx.version) in
    let out₂ = write_compact_size (length tx.inputs) out₁ in
    let out₃ = write_inputs tx.inputs out₂ in
    let out₄ = write_compact_size (length tx.outputs) out₃ in
    let out₅ = write_outputs tx.outputs out₄ in out₅ ++ to_le_bytes 4 tx.lock_time

unfoldable pub input_size : TxInput → ℕ
input_size input =
    32 + 4 + compact_size_encoded_len (length input.script_sig) + length input.script_sig + 4

unfoldable pub output_size : TxOutput → ℕ
output_size output =
    8 + compact_size_encoded_len (length output.script_pubkey) + length output.script_pubkey

abbrev pub sum_by : {A : Type 0} → (A → ℕ) → List A → ℕ
sum_by f [] = 0
sum_by f (x ∷ xs) = f x + sum_by f xs

unfoldable pub serialized_size : Transaction → ℕ
serialized_size tx =
    4
    + compact_size_encoded_len (length tx.inputs)
    + sum_by input_size tx.inputs
    + compact_size_encoded_len (length tx.outputs)
    + sum_by output_size tx.outputs
    + 4

unfoldable pub txid : Primitives → Transaction → List ℕ
txid crypto tx = sha256d crypto (serialize tx)

-- The format as a concatenation, which the decoder is read against.
unfoldable pub encode_input : TxInput → List ℕ
encode_input input =
    input.previous_output
    ++ (to_le_bytes 4 input.index
        ++ (compact_size (length input.script_sig)
            ++ (input.script_sig ++ to_le_bytes 4 input.sequence)))

unfoldable pub encode_output : TxOutput → List ℕ
encode_output output =
    to_le_bytes 8 output.value
    ++ (compact_size (length output.script_pubkey) ++ output.script_pubkey)

abbrev pub concat_by : {A : Type 0} → (A → List ℕ) → List A → List ℕ
concat_by f [] = []
concat_by f (x ∷ xs) = f x ++ concat_by f xs

unfoldable pub encode : Transaction → List ℕ
encode tx =
    to_le_bytes 4 (i32_bits tx.version)
    ++ (compact_size (length tx.inputs)
        ++ (concat_by encode_input tx.inputs
            ++ (compact_size (length tx.outputs)
                ++ (concat_by encode_output tx.outputs ++ to_le_bytes 4 tx.lock_time))))

write_input-append :
    (input : TxInput) (out : List ℕ) → write_input input out ≡ out ++ encode_input input
unfolding write_input encode_input
write_input-append input out = simp (write_compact_size-append, append_assoc)

write_output-append :
    (output : TxOutput) (out : List ℕ) → write_output output out ≡ out ++ encode_output output
unfolding write_output encode_output
write_output-append output out = simp (write_compact_size-append, append_assoc)

write_inputs-append :
    (inputs : List TxInput) (out : List ℕ)
    → write_inputs inputs out ≡ out ++ concat_by encode_input inputs
unfolding write_inputs
write_inputs-append [] out = sym (append-nil out)
write_inputs-append (input ∷ inputs) out =
    write_inputs-append inputs (write_input input out) ∙ rw (write_input-append, append_assoc)

write_outputs-append :
    (outputs : List TxOutput) (out : List ℕ)
    → write_outputs outputs out ≡ out ++ concat_by encode_output outputs
unfolding write_outputs
write_outputs-append [] out = sym (append-nil out)
write_outputs-append (output ∷ outputs) out =
    write_outputs-append outputs (write_output output out) ∙ rw (write_output-append, append_assoc)

pub serialize-encode : (tx : Transaction) → serialize tx ≡ encode tx
unfolding serialize encode
serialize-encode tx =
    simp (write_compact_size-append, write_inputs-append, write_outputs-append, append_assoc)
