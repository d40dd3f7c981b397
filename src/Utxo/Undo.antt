-- ===== src/Utxo/Undo.antt =====
-- `disconnect_undo` of crates/bitrst-core/src/utxo.rs takes back `apply_transaction`.
use bitrst.Base.{
  ℕ, suc, ◌+◌, ◌<◌, ◌≡◌, refl, sym, ap, ◌∙◌, List, [], ◌∷◌, ◌++◌, length, Option, none, some, Bool,
  true, false, ◌||◌, if◌then◌else◌, ite, if_pos, if_neg, append_assoc, append-nil, Bool-cases, inl,
  inr, arith,
}
use bitrst.Base.Map
use bitrst.Base.Map.{get-insert, get-remove}
use bitrst.Base.Keys.{holds}
use bitrst.Crypto.{Primitives}
use bitrst.Transaction.Types.{TxInput, TxOutput, Transaction}
use bitrst.Transaction.Encode.{txid}
use bitrst.Utxo.Types.{
  OutPoint, UtxoEntry, UtxoSet, TxUndo, get, outpoint_discrete, outpoint_of, is_coinbase,
}
use bitrst.Utxo.Apply.{
  Entries, Removed, spend, spend_inputs, create_outputs, created_outpoint, entry_of, spent,
  apply_transaction, remove_all, insert_all, disconnect_undo,
}

abbrev find : OutPoint → Entries → Option UtxoEntry
find q entries = Map.get outpoint_discrete q entries

abbrev pub or_else : Option UtxoEntry → Option UtxoEntry → Option UtxoEntry
or_else none b = b
or_else (some e) b = some e

-- The entry that restoring `removed` leaves at `q`, and whether `q` is among the created outpoints.
abbrev pub last_of : OutPoint → Removed → Option UtxoEntry
last_of q [] = none
last_of q ((o, e) ∷ removed) =
    or_else (last_of q removed) (ite (outpoint_discrete o q) (some e) none)

abbrev pub among : OutPoint → List OutPoint → Bool
among q [] = false
among q (o ∷ os) = holds (outpoint_discrete o q) || among q os

or_else_assoc : (a b c : Option UtxoEntry) → or_else a (or_else b c) ≡ or_else (or_else a b) c
or_else_assoc none b c = refl
or_else_assoc (some e) b c = refl

get-insert_all :
    (q : OutPoint) (removed : Removed) (entries : Entries)
    → find q (insert_all removed entries) ≡ or_else (last_of q removed) (find q entries)
unfolding insert_all
get-insert_all q [] entries = refl
get-insert_all q ((o, e) ∷ removed) entries =
    get-insert_all q removed (Map.insert outpoint_discrete o e entries)
    ∙ rw (get-insert outpoint_discrete o q e entries) (elim (outpoint_discrete o q) [
      | yes p ↦
          rw (if_pos _ p, if_pos _ p) (or_else_assoc (last_of q removed) (some e) (find q entries))
      | no p ↦ rw (if_neg _ p, if_neg _ p) (or_else_assoc (last_of q removed) none (find q entries))
    ])

get-remove_all :
    (q : OutPoint) (os : List OutPoint) (entries : Entries)
    → find q (remove_all os entries) ≡ (if among q os then none else find q entries)
unfolding remove_all
get-remove_all q [] entries = refl
get-remove_all q (o ∷ os) entries =
    get-remove_all q os (Map.remove outpoint_discrete o entries)
    ∙ rw (get-remove outpoint_discrete o q entries) (ground arith)

-- The whole effect of an undo at one outpoint.
pub get-disconnect_undo :
    (q : OutPoint) (set : UtxoSet) (undo : TxUndo)
    → get (disconnect_undo set undo) q
      ≡ or_else (last_of q undo.removed) (if among q undo.created then none else get set q)
unfolding get disconnect_undo
get-disconnect_undo q set undo =
    get-insert_all q undo.removed (remove_all undo.created set.entries)
    ∙ ap (or_else (last_of q undo.removed)) (get-remove_all q undo.created set.entries)

-- The accumulator of the spending loop only collects.
abbrev Collects : List TxInput → Entries → Removed → Type 0
Collects inputs entries removed =
    ((spend_inputs inputs entries removed).0 ≡ (spend_inputs inputs entries []).0)
    × ((spend_inputs inputs entries removed).1 ≡ removed ++ (spend_inputs inputs entries []).1)

-- What the loop does after its first input, whose entry is `found`.
abbrev after_first :
    OutPoint → List TxInput → Entries → Option UtxoEntry → Removed → Entries × Removed
after_first o inputs entries found removed =
    spend_inputs inputs (spend o found entries removed).0 (spend o found entries removed).1

Collects-first :
    (o : OutPoint) (inputs : List TxInput) (entries : Entries) (removed : Removed)
    (found : Option UtxoEntry)
    → ((e : Entries) (r : Removed) → Collects inputs e r)
    → ((after_first o inputs entries found removed).0 ≡ (after_first o inputs entries found []).0)
      × ((after_first o inputs entries found removed).1
          ≡ removed ++ (after_first o inputs entries found []).1)
Collects-first o inputs entries removed none ih = ih entries removed
Collects-first o inputs entries removed (some e) ih =
    let rest = Map.remove outpoint_discrete o entries in
    let (same, more) = ih rest (removed ++ ((o, e) ∷ [])) in
    let (same', more') = ih rest ((o, e) ∷ []) in
    (same ∙ sym same', more ∙ append_assoc removed ((o, e) ∷ []) _ ∙ ap (◌++◌ removed) (sym more'))

pub spend_inputs-Collects :
    (inputs : List TxInput) (entries : Entries) (removed : Removed)
    → Collects inputs entries removed
unfolding spend_inputs
spend_inputs-Collects [] entries removed = (refl, sym (append-nil removed))
spend_inputs-Collects (input ∷ inputs) entries removed =
    Collects-first (outpoint_of input) inputs entries removed (find (outpoint_of input) entries)
      (spend_inputs-Collects inputs)

-- Putting back what the loop took out gives every outpoint its entry again.
abbrev Restores : OutPoint → Entries × Removed → Entries → Type 0
Restores q (entries', removed) entries =
    or_else (last_of q removed) (find q entries') ≡ find q entries

-- An entry put back under what the later inputs put back.
or_else_put :
    (q o : OutPoint) (e : UtxoEntry) (entries : Entries) (a b : Option UtxoEntry)
    → find o entries ≡ some e
    → or_else a b ≡ find q (Map.remove outpoint_discrete o entries)
    → or_else (or_else a (ite (outpoint_discrete o q) (some e) none)) b ≡ find q entries
or_else_put q o e entries a b h ih = elim (outpoint_discrete o q) [
  | yes p ↦ rw (if_pos _ p) (ground (arith, get-remove outpoint_discrete o q entries))
  | no p ↦ rw (if_neg _ p) (ground (arith, get-remove outpoint_discrete o q entries))
]

Restores-first :
    (q o : OutPoint) (inputs : List TxInput) (entries : Entries) (found : Option UtxoEntry)
    → find o entries ≡ found
    → ((e : Entries) → Restores q (spend_inputs inputs e []) e)
    → Restores q (after_first o inputs entries found []) entries
Restores-first q o inputs entries none h ih = ih entries
Restores-first q o inputs entries (some e) h ih =
    let rest = Map.remove outpoint_discrete o entries in
    let (same, more) = spend_inputs-Collects inputs rest ((o, e) ∷ []) in
    rw (same, more)
      (or_else_put q o e entries (last_of q (spend_inputs inputs rest []).1)
        (find q (spend_inputs inputs rest []).0) h (ih rest))

spend_inputs-restore :
    (q : OutPoint) (inputs : List TxInput) (entries : Entries)
    → Restores q (spend_inputs inputs entries []) entries
unfolding spend_inputs
spend_inputs-restore q [] entries = refl
spend_inputs-restore q (input ∷ inputs) entries =
    Restores-first q (outpoint_of input) inputs entries (find (outpoint_of input) entries) refl
      (spend_inputs-restore q inputs)

-- The loop over the outputs collects too, and touches nothing but what it creates.
pub create_outputs-collects :
    (id : List ℕ) (index : ℕ) (outputs : List TxOutput) (entries : Entries)
    (created : List OutPoint)
    → ((create_outputs id index outputs entries created).0
        ≡ (create_outputs id index outputs entries []).0)
      × ((create_outputs id index outputs entries created).1
          ≡ created ++ (create_outputs id index outputs entries []).1)
unfolding create_outputs
create_outputs-collects id index [] entries created = (refl, sym (append-nil created))
create_outputs-collects id index (output ∷ outputs) entries created =
    let o = created_outpoint id index in
    let next = Map.insert outpoint_discrete o (entry_of output) entries in
    let (same, more) = create_outputs-collects id (suc index) outputs next (created ++ (o ∷ [])) in
    let (same', more') = create_outputs-collects id (suc index) outputs next (o ∷ []) in
    (same ∙ sym same', more ∙ append_assoc created (o ∷ []) _ ∙ ap (◌++◌ created) (sym more'))

find-create_outputs :
    (q : OutPoint) (id : List ℕ) (index : ℕ) (outputs : List TxOutput) (entries : Entries)
    → among q (create_outputs id index outputs entries []).1 ≡ false
    → find q (create_outputs id index outputs entries []).0 ≡ find q entries
unfolding create_outputs
find-create_outputs q id index [] entries h = refl
find-create_outputs q id index (output ∷ outputs) entries h =
    let o = created_outpoint id index in
    let next = Map.insert outpoint_discrete o (entry_of output) entries in
    let (same, more) = create_outputs-collects id (suc index) outputs next (o ∷ []) in
    let h' : (holds (outpoint_discrete o q)
          || among q (create_outputs id (suc index) outputs next []).1)
        ≡ false =
      rw more at h in
    rw same (
      ground (
        arith,
        find-create_outputs q id (suc index) outputs next,
        get-insert outpoint_discrete o q (entry_of output) entries,
      ))

among-create_outputs :
    (q : OutPoint) (id : List ℕ) (index : ℕ) (outputs : List TxOutput) (entries before : Entries)
    → ((i : ℕ) → i < length outputs → find (created_outpoint id (index + i)) before ≡ none)
    → among q (create_outputs id index outputs entries []).1 ≡ true
    → find q before ≡ none
unfolding create_outputs
among-create_outputs q id index [] entries before fresh h = absurd (ground arith)
among-create_outputs q id index (output ∷ outputs) entries before fresh h =
    let o = created_outpoint id index in
    let next = Map.insert outpoint_discrete o (entry_of output) entries in
    let (same, more) = create_outputs-collects id (suc index) outputs next (o ∷ []) in
    let h' : (holds (outpoint_discrete o q)
          || among q (create_outputs id (suc index) outputs next []).1)
        ≡ true =
      rw more at h in
    elim (outpoint_discrete o q) [
      | yes p ↦ let e : index + 0 ≡ index = omega arith in rw (← p, ← e) (fresh 0 (omega arith))
      | no p ↦
          among-create_outputs q id (suc index) outputs next before
            (λ i lt.
              let e : suc index + i ≡ index + suc i = omega arith in
              rw e (fresh (suc i) (omega arith)))
            (ground arith)
    ]

or_else-eq-none : (a b : Option UtxoEntry) → or_else a b ≡ none → b ≡ none
or_else-eq-none none b h = h
or_else-eq-none (some e) b h = absurd (ground arith)

-- Spending adds no entry.
pub spend_inputs-none :
    (q : OutPoint) (inputs : List TxInput) (entries : Entries)
    → find q entries ≡ none
    → find q (spend_inputs inputs entries []).0 ≡ none
spend_inputs-none q inputs entries h =
    or_else-eq-none (last_of q (spend_inputs inputs entries []).1) _
      (spend_inputs-restore q inputs entries ∙ h)

spent-restore :
    (q : OutPoint) (tx : Transaction) (entries : Entries) → Restores q (spent tx entries) entries
spent-restore q tx entries = elim (Bool-cases (is_coinbase tx)) [
  | inl yes_ ↦ rw yes_ refl
  | inr no_ ↦ rw no_ (spend_inputs-restore q tx.inputs entries)
]

-- No output of the transaction has the identifier of an output that is unspent already.
abbrev pub IsFresh : Primitives → UtxoSet → Transaction → Type 0
IsFresh crypto set tx =
    (i : ℕ) → i < length tx.outputs → get set (created_outpoint (txid crypto tx) i) ≡ none

-- Undoing a transaction that was applied gives every outpoint what it held before, entry or not, if
-- no output of the transaction was in the set already.
pub disconnect_undo-apply_transaction :
    (crypto : Primitives) (set : UtxoSet) (tx : Transaction)
    → IsFresh crypto set tx
    → (q : OutPoint)
    → get
        (disconnect_undo (apply_transaction crypto set tx).0 (apply_transaction crypto set tx).1)
        q
      ≡ get set q
unfolding get apply_transaction
disconnect_undo-apply_transaction crypto set tx fresh q =
    let id = txid crypto tx in
    let (entries, removed) = spent tx set.entries in
    let made = create_outputs id 0 tx.outputs entries [] in
    let back = spent-restore q tx set.entries in
    get-disconnect_undo q _ _
    ∙ ap (or_else (last_of q removed)) (elim (Bool-cases (among q made.1)) [
      | inl new ↦ rw new (
          sym (
            or_else-eq-none (last_of q removed) (find q entries) (
              back
              ∙ among-create_outputs q id 0 tx.outputs entries set.entries
                  (λ i lt. let e : 0 + i ≡ i = omega arith in rw e (fresh i lt)) new)))
      | inr old ↦ rw old (find-create_outputs q id 0 tx.outputs entries old)
    ])
    ∙ back
