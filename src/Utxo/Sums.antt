-- ===== src/Utxo/Sums.antt =====
-- `validate_transaction` of crates/bitrst-core/src/utxo.rs decided by sums of values.
use bitrst.Base.{
  ℕ, ◌+◌, ◌^◌, ◌≤◌, ◌<◌, ◌≡◌, refl, ◌↔◌, List, [], ◌∷◌, All, Option, none, some, false, ltb, Result,
  ok, err, Bool-cases, Option-cases, inl, inr, le→ltb, lt→ltb, arith,
}
use bitrst.Transaction.Types.{TxInput, TxOutput, Transaction}
use bitrst.Transaction.Encode.{sum_by}
use bitrst.Utxo.Types.{UtxoSet, UtxoError, get_value, outpoint_of, is_coinbase, checked_add}
use bitrst.Utxo.Validate.{input_sum, output_sum_from, output_sum, validate_transaction}

abbrev pub value_or_zero : Option ℕ → ℕ
value_or_zero none = 0
value_or_zero (some v) = v

-- What the outputs are worth that a transaction spends, and that it creates.
abbrev pub value_in : UtxoSet → List TxInput → ℕ
value_in set = sum_by (λ input. value_or_zero (get_value set (outpoint_of input)))

abbrev pub value_out : List TxOutput → ℕ
value_out = sum_by (λ output. output.value)

abbrev pub IsUnspent : UtxoSet → TxInput → Type 0
IsUnspent set input = (v : ℕ) × (get_value set (outpoint_of input) ≡ some v)

-- Every input is unspent, and the sums stay below 2^64.
pub input_sum_sound :
    (set : UtxoSet) (inputs : List TxInput) (acc sum : ℕ)
    → acc < 2 ^ 64
    → input_sum set inputs acc ≡ ok sum
    → All (IsUnspent set) inputs × (sum ≡ acc + value_in set inputs) × (sum < 2 ^ 64)
unfolding input_sum checked_add
input_sum_sound set [] acc sum small h = (tt, ground arith, ground arith)
input_sum_sound set (input ∷ inputs) acc sum small h =
    elim (Option-cases (get_value set (outpoint_of input))) [
      | inl e ↦ absurd (ground arith)
      | inr (v, e) ↦ elim (Bool-cases (ltb (acc + v) (2 ^ 64))) [
        | inl fits ↦
            let (all, same, top) =
              input_sum_sound set inputs (acc + v) sum (ground arith) (rw (e, fits) at h) in
            (((v, e), all), rw e (omega arith), top)
        | inr over ↦ absurd (ground arith)
      ]
    ]

pub input_sum_complete :
    (set : UtxoSet) (inputs : List TxInput) (acc : ℕ)
    → All (IsUnspent set) inputs
    → acc + value_in set inputs < 2 ^ 64
    → input_sum set inputs acc ≡ ok (acc + value_in set inputs)
unfolding input_sum checked_add
input_sum_complete set [] acc all h = ground arith
input_sum_complete set (input ∷ inputs) acc ((v, e), all) h =
    let h' : acc + (v + value_in set inputs) < 2 ^ 64 = rw e at h in
    rw (e, lt→ltb (acc + v) (2 ^ 64) (omega arith))
      (rw (input_sum_complete set inputs (acc + v) all (omega arith)) (ground arith))

pub output_sum_sound :
    (outputs : List TxOutput) (acc sum : ℕ)
    → acc < 2 ^ 64
    → output_sum_from outputs acc ≡ ok sum
    → (sum ≡ acc + value_out outputs) × (sum < 2 ^ 64)
unfolding output_sum_from checked_add
output_sum_sound [] acc sum small h = (ground arith, ground arith)
output_sum_sound (output ∷ outputs) acc sum small h =
    elim (Bool-cases (ltb (acc + output.value) (2 ^ 64))) [
      | inl fits ↦
          let (same, top) =
            output_sum_sound outputs (acc + output.value) sum (ground arith) (rw fits at h) in
          (omega arith, top)
      | inr over ↦ absurd (ground arith)
    ]

pub output_sum_complete :
    (outputs : List TxOutput) (acc : ℕ)
    → acc + value_out outputs < 2 ^ 64
    → output_sum_from outputs acc ≡ ok (acc + value_out outputs)
unfolding output_sum_from checked_add
output_sum_complete [] acc h = ground arith
output_sum_complete (output ∷ outputs) acc h =
    rw (lt→ltb (acc + output.value) (2 ^ 64) (omega arith))
      (rw (output_sum_complete outputs (acc + output.value) (omega arith)) (ground arith))

-- What validation asks of a transaction that is no coinbase.
abbrev pub Spendable : UtxoSet → Transaction → Type 0
Spendable set tx =
    All (IsUnspent set) tx.inputs
    × (value_in set tx.inputs < 2 ^ 64)
    × (value_out tx.outputs ≤ value_in set tx.inputs)

validate_sound :
    (set : UtxoSet) (tx : Transaction)
    → is_coinbase tx ≡ false
    → validate_transaction set tx ≡ ok tt
    → Spendable set tx
unfolding validate_transaction output_sum
validate_sound set tx plain h =
    go (input_sum set tx.inputs 0) (output_sum_from tx.outputs 0) refl refl
  where
    go :
        (a b : Result UtxoError ℕ)
        → input_sum set tx.inputs 0 ≡ a
        → output_sum_from tx.outputs 0 ≡ b
        → Spendable set tx
    go (err x) b ea eb = absurd (ground arith)
    go (ok m) (err x) ea eb = absurd (ground arith)
    go (ok m) (ok n) ea eb =
        let (all, same, top) = input_sum_sound set tx.inputs 0 m (omega arith) ea in
        let (same', top') = output_sum_sound tx.outputs 0 n (omega arith) eb in
        let enough : n ≤ m = ground arith in (all, omega arith, omega arith)

validate_complete :
    (set : UtxoSet) (tx : Transaction)
    → is_coinbase tx ≡ false
    → Spendable set tx
    → validate_transaction set tx ≡ ok tt
unfolding validate_transaction output_sum
validate_complete set tx plain (all, top, enough) =
    rw
      (
        plain,
        input_sum_complete set tx.inputs 0 all (omega arith),
        output_sum_complete tx.outputs 0 (omega arith),
      )
      (rw (le→ltb (0 + value_in set tx.inputs) (0 + value_out tx.outputs) (omega arith)) refl)

-- A transaction that is no coinbase is valid exactly when every input is unspent, the inputs are
-- worth less than 2^64, and the outputs are worth no more than the inputs.
pub validate_transaction_iff :
    (set : UtxoSet) (tx : Transaction)
    → is_coinbase tx ≡ false
    → (validate_transaction set tx ≡ ok tt) ↔ Spendable set tx
validate_transaction_iff set tx plain =
    (validate_sound set tx plain, validate_complete set tx plain)
