-- ===== src/Sighash.antt =====
-- crates/bitrst-core/src/sighash.rs
use bitrst.Base.{
  ℕ, suc, ◌≡◌, refl, ap, List, [], ◌∷◌, ◌++◌, length, not, leb, ◌==◌, if◌then◌else◌, Option, none,
  some, get_elem?, Result, ok, ◌>>◌, reject_if,
}
use bitrst.Base.Int.{i32_bits}
use bitrst.Crypto.{Primitives, sha256d}
use bitrst.Wire.Bytes.{to_le_bytes}
use bitrst.Wire.CompactSize.{write_compact_size}
use bitrst.Transaction.Types.{TxInput, Transaction}
use bitrst.Transaction.Encode.{write_outputs}

pub data SighashError : Type 0 where
  input_index_out_of_range : SighashError
  prev_script_count_mismatch : SighashError

abbrev pub sighash_all_flag : ℕ
sighash_all_flag = 1

abbrev pub script_or_empty : Option (List ℕ) → List ℕ
script_or_empty none = []
script_or_empty (some script) = script

-- The loop over the inputs from index `i` on: every script but the signed input's is empty.
unfoldable pub write_signed_inputs : ℕ → ℕ → List (List ℕ) → List TxInput → List ℕ → List ℕ
write_signed_inputs i input_index prev_scripts [] out = out
write_signed_inputs i input_index prev_scripts (input ∷ inputs) out =
    let script = if i == input_index then script_or_empty (get_elem? prev_scripts i) else [] in
    let out₁ = out ++ input.previous_output ++ to_le_bytes 4 input.index in
    let out₂ = write_compact_size (length script) out₁ ++ script in
    write_signed_inputs (suc i) input_index prev_scripts inputs
      (out₂ ++ to_le_bytes 4 input.sequence)

-- The bytes that are hashed.
unfoldable pub sighash_preimage : Transaction → ℕ → List (List ℕ) → List ℕ
sighash_preimage tx input_index prev_scripts =
    let out₁ = write_compact_size (length tx.inputs) (to_le_bytes 4 (i32_bits tx.version)) in
    let out₂ = write_signed_inputs 0 input_index prev_scripts tx.inputs out₁ in
    let out₃ = write_outputs tx.outputs (write_compact_size (length tx.outputs) out₂) in
    out₃ ++ to_le_bytes 4 tx.lock_time ++ to_le_bytes 4 sighash_all_flag

unfoldable pub sighash_all :
    Primitives → Transaction → ℕ → List (List ℕ) → Result SighashError (List ℕ)
sighash_all crypto tx input_index prev_scripts = do
  reject_if (leb (length tx.inputs) input_index) input_index_out_of_range
  reject_if (not (length prev_scripts == length tx.inputs)) prev_script_count_mismatch
  ok (sha256d crypto (sighash_preimage tx input_index prev_scripts))

-- The input without its unlocking script.
abbrev pub unsigned_input : TxInput → TxInput
unsigned_input input = record input { script_sig = [] }

abbrev pub unsigned_inputs : List TxInput → List TxInput
unsigned_inputs [] = []
unsigned_inputs (input ∷ inputs) = unsigned_input input ∷ unsigned_inputs inputs

abbrev pub unsigned : Transaction → Transaction
unsigned tx = record tx { inputs = unsigned_inputs tx.inputs }

length-unsigned_inputs : (inputs : List TxInput) → length (unsigned_inputs inputs) ≡ length inputs
length-unsigned_inputs [] = refl
length-unsigned_inputs (input ∷ inputs) = ap suc (length-unsigned_inputs inputs)

write_signed_inputs-unsigned :
    (i input_index : ℕ) (prev_scripts : List (List ℕ)) (inputs : List TxInput) (out : List ℕ)
    → write_signed_inputs i input_index prev_scripts (unsigned_inputs inputs) out
      ≡ write_signed_inputs i input_index prev_scripts inputs out
unfolding write_signed_inputs
write_signed_inputs-unsigned i input_index prev_scripts [] out = refl
write_signed_inputs-unsigned i input_index prev_scripts (input ∷ inputs) out =
    write_signed_inputs-unsigned (suc i) input_index prev_scripts inputs _

-- The hash that is signed does not depend on the unlocking scripts, the signatures among them.
pub sighash_all-unsigned :
    (crypto : Primitives) (tx : Transaction) (input_index : ℕ) (prev_scripts : List (List ℕ))
    → sighash_all crypto (unsigned tx) input_index prev_scripts
      ≡ sighash_all crypto tx input_index prev_scripts
unfolding sighash_all sighash_preimage
sighash_all-unsigned crypto tx input_index prev_scripts =
    rw (length-unsigned_inputs tx.inputs) (simp write_signed_inputs-unsigned)
