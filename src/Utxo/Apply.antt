-- ===== src/Utxo/Apply.antt =====
-- `apply_transaction` and `disconnect_undo` of crates/bitrst-core/src/utxo.rs.
use bitrst.Base.{ℕ, suc, ◌%◌, ◌^◌, List, [], ◌∷◌, ◌++◌, Option, none, some, if◌then◌else◌}
use bitrst.Base.Map
use bitrst.Base.Map.{Map}
use bitrst.Crypto.{Primitives}
use bitrst.Transaction.Types.{TxInput, TxOutput, Transaction}
use bitrst.Transaction.Encode.{txid}
use bitrst.Utxo.Types.{
  OutPoint, UtxoEntry, UtxoSet, TxUndo, outpoint_discrete, outpoint_of, is_coinbase,
}

abbrev pub Entries : Type 0
Entries = Map OutPoint UtxoEntry

abbrev pub Removed : Type 0
Removed = List (OutPoint × UtxoEntry)

-- `if let Some(entry) = self.entries.remove(&outpoint) { removed.push((outpoint, entry)) }`
abbrev pub spend : OutPoint → Option UtxoEntry → Entries → Removed → Entries × Removed
spend outpoint none entries removed = (entries, removed)
spend outpoint (some entry) entries removed =
    (Map.remove outpoint_discrete outpoint entries, removed ++ ((outpoint, entry) ∷ []))

unfoldable pub spend_inputs : List TxInput → Entries → Removed → Entries × Removed
spend_inputs [] entries removed = (entries, removed)
spend_inputs (input ∷ inputs) entries removed =
    let outpoint = outpoint_of input in
    let (entries', removed') =
      spend outpoint (Map.get outpoint_discrete outpoint entries) entries removed in
    spend_inputs inputs entries' removed'

-- `index as u32` keeps the low 32 bits.
abbrev pub created_outpoint : List ℕ → ℕ → OutPoint
created_outpoint id index = record { txid = id; index = index % 2 ^ 32 }

abbrev pub entry_of : TxOutput → UtxoEntry
entry_of output = record { value = output.value; script_pubkey = output.script_pubkey }

unfoldable pub create_outputs :
    List ℕ → ℕ → List TxOutput → Entries → List OutPoint → Entries × List OutPoint
create_outputs id index [] entries created = (entries, created)
create_outputs id index (output ∷ outputs) entries created =
    let outpoint = created_outpoint id index in
    create_outputs id (suc index) outputs
      (Map.insert outpoint_discrete outpoint (entry_of output) entries) (created ++ (outpoint ∷ []))

abbrev pub spent : Transaction → Entries → Entries × Removed
spent tx entries = if is_coinbase tx then (entries, []) else spend_inputs tx.inputs entries []

unfoldable pub apply_transaction : Primitives → UtxoSet → Transaction → UtxoSet × TxUndo
apply_transaction crypto set tx =
    let (entries, removed) = spent tx set.entries in
    let (entries', created) = create_outputs (txid crypto tx) 0 tx.outputs entries [] in
    (record { entries = entries' }, record { removed = removed; created = created })

unfoldable pub remove_all : List OutPoint → Entries → Entries
remove_all [] entries = entries
remove_all (outpoint ∷ outpoints) entries =
    remove_all outpoints (Map.remove outpoint_discrete outpoint entries)

unfoldable pub insert_all : Removed → Entries → Entries
insert_all [] entries = entries
insert_all ((outpoint, entry) ∷ removed) entries =
    insert_all removed (Map.insert outpoint_discrete outpoint entry entries)

unfoldable pub disconnect_undo : UtxoSet → TxUndo → UtxoSet
disconnect_undo set undo = record {
  entries = insert_all undo.removed (remove_all undo.created set.entries);
}
