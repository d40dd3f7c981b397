-- ===== src/Utxo/Value.antt =====
-- `apply_transaction` of crates/bitrst-core/src/utxo.rs moves value and never makes it.
use bitrst.Base.{
  ℕ, suc, ◌+◌, ◌^◌, ◌≤◌, ◌<◌, ◌≡◌, ◌≢◌, refl, ap, ◌∙◌, List, [], ◌∷◌, length, All, none, some,
  false, if_neg, Option-cases, inl, inr, ok, arith,
}
use bitrst.Base.Map
use bitrst.Base.Map.{
  get-insert, get-remove, get-remove_ne, Distinct, remove-Distinct, insert-Distinct, total,
  total-remove, total-insert_new,
}
use bitrst.Crypto.{Primitives}
use bitrst.Transaction.Types.{TxInput, TxOutput, Transaction}
use bitrst.Transaction.Encode.{txid}
use bitrst.Utxo.Types.{
  OutPoint, UtxoEntry, UtxoSet, get, get_value, outpoint_discrete, outpoint_of, is_coinbase,
}
use bitrst.Utxo.Apply.{
  Entries, spend, spend_inputs, create_outputs, created_outpoint, entry_of, spent,
  apply_transaction,
}
use bitrst.Utxo.Validate.{validate_transaction}
use bitrst.Utxo.Sums.{value_in, value_out, IsUnspent, validate_transaction_iff}
use bitrst.Utxo.Undo.{IsFresh, spend_inputs-Collects, create_outputs-collects, spend_inputs-none}

abbrev set_of : Entries → UtxoSet
set_of entries = record { entries = entries }

abbrev pub value_of : UtxoEntry → ℕ
value_of entry = entry.value

-- What all unspent outputs are worth.
abbrev pub supply : UtxoSet → ℕ
supply set = total value_of set.entries

abbrev pub DistinctInputs : List TxInput → Type 0
DistinctInputs [] = Unit
DistinctInputs (input ∷ inputs) =
    All (λ later. outpoint_of input ≢ outpoint_of later) inputs × DistinctInputs inputs

-- Removing one output leaves the value of the others.
value_in-remove :
    (o : OutPoint) (entries : Entries) (inputs : List TxInput)
    → All (λ later. o ≢ outpoint_of later) inputs
    → value_in (set_of (Map.remove outpoint_discrete o entries)) inputs
      ≡ value_in (set_of entries) inputs
unfolding get_value get
value_in-remove o entries [] h = refl
value_in-remove o entries (input ∷ inputs) h =
    rw
      (
        get-remove_ne outpoint_discrete o (outpoint_of input) entries h.0,
        value_in-remove o entries inputs h.1,
      )
      refl

IsUnspent-remove :
    (o : OutPoint) (entries : Entries) (inputs : List TxInput)
    → All (λ later. o ≢ outpoint_of later) inputs
    → All (IsUnspent (set_of entries)) inputs
    → All (IsUnspent (set_of (Map.remove outpoint_discrete o entries))) inputs
unfolding get_value get
IsUnspent-remove o entries [] h all = tt
IsUnspent-remove o entries (input ∷ inputs) h ((v, e), all) = (
  (v, rw (get-remove_ne outpoint_discrete o (outpoint_of input) entries h.0) e),
  IsUnspent-remove o entries inputs h.1 all,
)

get_value-some :
    (o : OutPoint) (entries : Entries) (entry : UtxoEntry)
    → Map.get outpoint_discrete o entries ≡ some entry
    → get_value (set_of entries) o ≡ some entry.value
unfolding get_value get
get_value-some o entries entry h = rw h refl

get_value-none :
    (o : OutPoint) (entries : Entries)
    → Map.get outpoint_discrete o entries ≡ none
    → get_value (set_of entries) o ≡ none
unfolding get_value get
get_value-none o entries h = rw h refl

spend_first :
    (input : TxInput) (inputs : List TxInput) (entries : Entries) (entry : UtxoEntry)
    → Map.get outpoint_discrete (outpoint_of input) entries ≡ some entry
    → (spend_inputs (input ∷ inputs) entries []).0
      ≡ (spend_inputs inputs (Map.remove outpoint_discrete (outpoint_of input) entries) []).0
unfolding spend_inputs
spend_first input inputs entries entry found =
    let o = outpoint_of input in
    ap (λ f. (spend_inputs inputs (spend o f entries []).0 (spend o f entries []).1).0) found
    ∙ (spend_inputs-Collects inputs (Map.remove outpoint_discrete o entries) ((o, entry) ∷ [])).0

-- Spending distinct unspent outputs takes their value out of the set.
spend_inputs-total :
    (inputs : List TxInput) (entries : Entries)
    → Distinct outpoint_discrete entries
    → DistinctInputs inputs
    → All (IsUnspent (set_of entries)) inputs
    → (total value_of (spend_inputs inputs entries []).0 + value_in (set_of entries) inputs
        ≡ total value_of entries)
      × Distinct outpoint_discrete (spend_inputs inputs entries []).0
spend_inputs-total [] entries d k all = unfold spend_inputs in (omega arith, d)
spend_inputs-total (input ∷ inputs) entries d k ((v, e), all) =
    elim (Option-cases (Map.get outpoint_discrete (outpoint_of input) entries)) [
      | inl missing ↦ absurd (ground (arith, get_value-none (outpoint_of input) entries missing))
      | inr (entry, found) ↦
          let o = outpoint_of input in
          let rest = Map.remove outpoint_discrete o entries in
          let (same, distinct) =
            spend_inputs-total inputs rest (remove-Distinct outpoint_discrete o entries d) k.1
              (IsUnspent-remove o entries inputs k.0 all) in
          let left = value_in-remove o entries inputs k.0 in
          let taken = total-remove outpoint_discrete value_of o entry entries d found in
          rw (spend_first input inputs entries entry found, get_value-some o entries entry found)
            (omega (arith, same, left, taken), distinct)
    ]

-- Output indices below 2^32 do not wrap, so a later output has another identifier.
fresh_later :
    (id : List ℕ) (index i count : ℕ) (entry : UtxoEntry) (entries : Entries)
    → index + suc count ≤ 2 ^ 32
    → i < count
    → Map.get outpoint_discrete (created_outpoint id (index + suc i)) entries ≡ none
    → Map.get outpoint_discrete
        (created_outpoint id (suc index + i))
        (Map.insert outpoint_discrete (created_outpoint id index) entry entries)
      ≡ none
fresh_later id index i count entry entries k lt h =
    let o = created_outpoint id index in
    let later = created_outpoint id (suc index + i) in
    let e : index + suc i ≡ suc index + i = omega arith in
    rw (get-insert outpoint_discrete o later entry entries) (elim (outpoint_discrete o later) [
      | yes p ↦ absurd (omega (arith, ap (λ (q : OutPoint). q.index) p))
      | no p ↦ rw (if_neg _ p) (rw e at h)
    ])

-- Creating outputs under identifiers that are not in the set adds their value.
create_outputs-total :
    (id : List ℕ) (index : ℕ) (outputs : List TxOutput) (entries : Entries)
    → Distinct outpoint_discrete entries
    → index + length outputs ≤ 2 ^ 32
    → ((i : ℕ)
        → i < length outputs
        → Map.get outpoint_discrete (created_outpoint id (index + i)) entries ≡ none)
    → (total value_of (create_outputs id index outputs entries []).0
        ≡ total value_of entries + value_out outputs)
      × Distinct outpoint_discrete (create_outputs id index outputs entries []).0
unfolding create_outputs
create_outputs-total id index [] entries d k fresh = (omega arith, d)
create_outputs-total id index (output ∷ outputs) entries d k fresh =
    let o = created_outpoint id index in
    let next = Map.insert outpoint_discrete o (entry_of output) entries in
    let here : index + 0 ≡ index = omega arith in
    let new : Map.get outpoint_discrete o entries ≡ none = rw here at (fresh 0 (omega arith)) in
    let (same, distinct) =
      create_outputs-total id (suc index) outputs next
        (insert-Distinct outpoint_discrete o (entry_of output) entries d) (omega arith)
        (λ i lt.
          fresh_later id index i (length outputs) (entry_of output) entries k lt
            (fresh (suc i) (omega arith))) in
    let added = total-insert_new outpoint_discrete value_of o (entry_of output) entries new in
    let collected = create_outputs-collects id (suc index) outputs next (o ∷ []) in
    rw (collected.0) (omega (arith, same, added), distinct)

supply_parts :
    (crypto : Primitives) (set : UtxoSet) (tx : Transaction) (entries : Entries)
    → (spent tx set.entries).0 ≡ entries
    → Distinct outpoint_discrete entries
    → length tx.outputs ≤ 2 ^ 32
    → ((i : ℕ)
        → i < length tx.outputs
        → Map.get outpoint_discrete (created_outpoint (txid crypto tx) i) entries ≡ none)
    → (supply (apply_transaction crypto set tx).0 ≡ total value_of entries + value_out tx.outputs)
      × Distinct outpoint_discrete (apply_transaction crypto set tx).0.entries
unfolding apply_transaction
supply_parts crypto set tx entries e d k fresh = rw e (
    create_outputs-total (txid crypto tx) 0 tx.outputs entries d (omega arith)
      (λ i lt. let e' : 0 + i ≡ i = omega arith in rw e' (fresh i lt)))

-- Applying a transaction with distinct unspent inputs and fresh outputs adds the value of its outputs
-- and takes away that of its inputs, and no outpoint comes to stand twice.
pub supply-apply_transaction :
    (crypto : Primitives) (set : UtxoSet) (tx : Transaction)
    → is_coinbase tx ≡ false
    → Distinct outpoint_discrete set.entries
    → DistinctInputs tx.inputs
    → All (IsUnspent set) tx.inputs
    → length tx.outputs ≤ 2 ^ 32
    → IsFresh crypto set tx
    → (supply (apply_transaction crypto set tx).0 + value_in set tx.inputs
        ≡ supply set + value_out tx.outputs)
      × Distinct outpoint_discrete (apply_transaction crypto set tx).0.entries
unfolding get
supply-apply_transaction crypto set tx plain d k all count fresh =
    let (same, distinct) = spend_inputs-total tx.inputs set.entries d k all in
    let (sum, distinct') =
      supply_parts crypto set tx (spend_inputs tx.inputs set.entries []).0 (rw plain refl) distinct
        count
        (λ i lt.
          spend_inputs-none (created_outpoint (txid crypto tx) i) tx.inputs set.entries
            (fresh i lt)) in
    (omega (arith, same, sum), distinct')

-- A valid transaction that is no coinbase, with distinct inputs and at most 2^32 outputs that
-- are fresh, on a set with no outpoint twice, creates no money: what is unspent after it is
-- worth no more than before.
pub supply_le :
    (crypto : Primitives) (set : UtxoSet) (tx : Transaction)
    → is_coinbase tx ≡ false
    → Distinct outpoint_discrete set.entries
    → DistinctInputs tx.inputs
    → length tx.outputs ≤ 2 ^ 32
    → IsFresh crypto set tx
    → validate_transaction set tx ≡ ok tt
    → supply (apply_transaction crypto set tx).0 ≤ supply set
supply_le crypto set tx plain d k count fresh valid =
    let (all, _, enough) = (validate_transaction_iff set tx plain).0 valid in
    omega (arith, (supply-apply_transaction crypto set tx plain d k all count fresh).0)
