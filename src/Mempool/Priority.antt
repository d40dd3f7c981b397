-- ===== src/Mempool/Priority.antt =====
-- What a transaction pays to the pool of crates/bitrst-core/src/mempool.rs.
use bitrst.Base.{
  ℕ, ◌+◌, ◌-◌, ◌≡◌, All, ltb, Result, ok, err, Bool-cases, >>=-eq-ok, map_err, reject_if, inl, inr,
  ltb→le, arith,
}
use bitrst.Transaction.Types.{Transaction}
use bitrst.Utxo.Types.{UtxoSet, UtxoError, input_output_mismatch}
use bitrst.Utxo.Validate.{input_sum, output_sum}
use bitrst.Utxo.Sums.{value_in, value_out, IsUnspent, input_sum_sound, output_sum_sound}
use bitrst.Mempool.Types.{utxo}
use bitrst.Mempool.Validate.{compute_fee}

map_err-ok : {A : Type 0} (r : Result UtxoError A) (a : A) → map_err utxo r ≡ ok a → r ≡ ok a
map_err-ok (ok b) a h = ground arith
map_err-ok (err e) a h = absurd (ground arith)

-- A fee that is computed is what the inputs, each of them unspent, are worth beyond the outputs.
pub compute_fee-eq :
    (tx : Transaction) (view : UtxoSet) (fee : ℕ)
    → compute_fee tx view ≡ ok fee
    → All (IsUnspent view) tx.inputs × (value_in view tx.inputs ≡ value_out tx.outputs + fee)
unfolding compute_fee output_sum
compute_fee-eq tx view fee h =
    let (inputs, e₁, h₁) = >>=-eq-ok (map_err utxo (input_sum view tx.inputs 0)) _ h in
    let (outputs, e₂, h₂) = >>=-eq-ok (map_err utxo (output_sum tx)) _ h₁ in
    let (done, e₃, h₃) =
      >>=-eq-ok (reject_if (ltb inputs outputs) (utxo (input_output_mismatch inputs outputs))) _
        h₂ in
    let (unspent, same_in, small_in) =
      input_sum_sound view tx.inputs 0 inputs (omega arith) (map_err-ok _ inputs e₁) in
    let (same_out, small_out) =
      output_sum_sound tx.outputs 0 outputs (omega arith) (map_err-ok _ outputs e₂) in
    elim (Bool-cases (ltb inputs outputs)) [
      | inl more ↦ absurd (ground arith)
      | inr enough ↦
          let left : inputs - outputs ≡ fee = ground arith in
          let at = ltb→le inputs outputs enough in (unspent, omega arith)
    ]
