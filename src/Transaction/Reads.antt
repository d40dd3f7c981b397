-- ===== src/Transaction/Reads.antt =====
-- The decoder of a transaction reads what the encoder writes.
use bitrst.Base.{
  ℕ, ◌≤◌, refl, sym, subst, List, [], ◌∷◌, ◌++◌, length, All, append_assoc, append-nil, arith,
}
use bitrst.Wire.Reader.{Decoder, pure}
use bitrst.Wire.Reads.{
  Reads, Reads-pure, Reads-bind, Reads-return, Reads-read_bytes, Reads-read_u32, Reads-read_u64,
  Reads-read_i32, Reads-read_limited_len,
}
use bitrst.Transaction.Types.{TxInput, TxOutput, Transaction, IsTxInput, IsTxOutput, IsTransaction}
use bitrst.Transaction.Encode.{encode, encode_input, encode_output, concat_by}
use bitrst.Transaction.Decode.{decode_from, decode_input, decode_output, decode_many}
use bitrst.Limits.{max_script_size, max_transaction_inputs, max_transaction_outputs}

-- What the decoder's resource limits ask of a transaction.
pub record WithinLimits (tx : Transaction) : Type 0 where
  pub inputs : length tx.inputs ≤ max_transaction_inputs
  pub outputs : length tx.outputs ≤ max_transaction_outputs
  pub script_sigs : All (λ input. length input.script_sig ≤ max_script_size) tx.inputs
  pub script_pubkeys : All (λ output. length output.script_pubkey ≤ max_script_size) tx.outputs

Reads-decode_input :
    (input : TxInput)
    → IsTxInput input
    → length input.script_sig ≤ max_script_size
    → Reads decode_input (encode_input input) input
unfolding decode_input encode_input
Reads-decode_input input h small =
    Reads-bind _ _ (Reads-read_bytes 32 _ input.previous_output h.previous_output.size) (
      Reads-bind _ _ (Reads-read_u32 _ input.index h.index) (
        Reads-bind _ _
          (Reads-read_limited_len _ max_script_size (length input.script_sig) small (omega arith))
          (Reads-bind _ _ (Reads-read_bytes (length input.script_sig) _ input.script_sig refl)
            (Reads-return _ _ (Reads-read_u32 _ input.sequence h.sequence)))))

Reads-decode_output :
    (output : TxOutput)
    → IsTxOutput output
    → length output.script_pubkey ≤ max_script_size
    → Reads decode_output (encode_output output) output
unfolding decode_output encode_output
Reads-decode_output output h small = Reads-bind _ _ (Reads-read_u64 _ output.value h.value) (
    Reads-bind _ _
      (Reads-read_limited_len _ max_script_size (length output.script_pubkey) small (omega arith))
      (Reads-return _ _
        (Reads-read_bytes (length output.script_pubkey) _ output.script_pubkey refl)))

-- A counted loop reads the items one after the other, behind those that it already has.
pub Reads-decode_many :
    {A : Type 0} (item : Decoder A) (f : A → List ℕ) (before xs : List A)
    → All (λ x. Reads item (f x) x) xs
    → Reads (decode_many item (length xs) before) (concat_by f xs) (before ++ xs)
unfolding decode_many
Reads-decode_many item f before [] h =
    subst (Reads (pure before) []) (sym (append-nil before)) (Reads-pure before)
Reads-decode_many item f before (x ∷ xs) h = Reads-bind item _ h.0 (
    subst (Reads (decode_many item (length xs) (before ++ (x ∷ []))) (concat_by f xs))
      (append_assoc before (x ∷ []) xs) (Reads-decode_many item f (before ++ (x ∷ [])) xs h.1))

Reads-inputs :
    (inputs : List TxInput)
    → All IsTxInput inputs
    → All (λ input. length input.script_sig ≤ max_script_size) inputs
    → All (λ input. Reads decode_input (encode_input input) input) inputs
Reads-inputs [] h k = tt
Reads-inputs (input ∷ inputs) h k = (Reads-decode_input input h.0 k.0, Reads-inputs inputs h.1 k.1)

Reads-outputs :
    (outputs : List TxOutput)
    → All IsTxOutput outputs
    → All (λ output. length output.script_pubkey ≤ max_script_size) outputs
    → All (λ output. Reads decode_output (encode_output output) output) outputs
Reads-outputs [] h k = tt
Reads-outputs (output ∷ outputs) h k =
    (Reads-decode_output output h.0 k.0, Reads-outputs outputs h.1 k.1)

pub Reads-decode_from :
    (tx : Transaction) → IsTransaction tx → WithinLimits tx → Reads decode_from (encode tx) tx
unfolding decode_from encode
Reads-decode_from tx h k = Reads-bind _ _ (Reads-read_i32 _ tx.version h.version) (
    Reads-bind _ _
      (Reads-read_limited_len _ max_transaction_inputs (length tx.inputs) k.inputs (omega arith))
      (Reads-bind _ _
        (Reads-decode_many _ _ [] tx.inputs (Reads-inputs tx.inputs h.inputs k.script_sigs))
        (Reads-bind _ _
          (Reads-read_limited_len _ max_transaction_outputs (length tx.outputs) k.outputs
            (omega arith))
          (Reads-bind _ _
            (Reads-decode_many _ _ [] tx.outputs
              (Reads-outputs tx.outputs h.outputs k.script_pubkeys))
            (Reads-return _ _ (Reads-read_u32 _ tx.lock_time h.lock_time))))))
