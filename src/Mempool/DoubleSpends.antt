-- ===== src/Mempool/DoubleSpends.antt =====
-- Admission to the pool of crates/bitrst-core/src/mempool.rs lets no double spend in.
use bitrst.Base.{
  ℕ, ◌≡◌, sym, ◌∙◌, List, [], ◌∷◌, All-imp, some, Result, ok, Option-cases, >>=-eq-ok, reject_if,
  inl, inr, arith,
}
use bitrst.Base.Map
use bitrst.Base.Map.{get-insert}
use bitrst.Base.Keys.{bytes_discrete}
use bitrst.Crypto.{Primitives}
use bitrst.Transaction.Types.{TxInput, Transaction}
use bitrst.Transaction.Encode.{txid}
use bitrst.Utxo.Types.{UtxoSet, outpoint_of, outpoint_discrete, is_coinbase}
use bitrst.Mempool.Types.{
  MempoolEntry, Mempool, MempoolError, AcceptedTx, coinbase_rejected, duplicate, contains,
}
use bitrst.Mempool.Validate.{validate_tx_structure, check_duplicate_inputs}
use bitrst.Mempool.Pool.{check_mempool_conflicts, insert_entry, check_tx, accept_tx}
use bitrst.Mempool.Admission.{accept_tx-keeps}
use bitrst.Mempool.Spends.{
  Held, Free, get-claim_ne, claim-Held, remove_entry-Held, remove_entry-Free,
}

insert_entry-Held :
    (pool : Mempool) (id : List ℕ) (entry : MempoolEntry)
    → Held pool
    → Free entry.tx.inputs pool
    → Held (insert_entry pool id entry)
unfolding insert_entry
insert_entry-Held pool id entry held free = record {
  owner = λ other e h. elim (bytes_discrete id other) [
    | yes same ↦
        let found = get-insert bytes_discrete id other entry pool.entries in
        let mine : entry ≡ e = ground arith in
        rw (sym same, sym mine) (claim-Held id entry.tx.inputs pool.spends)
    | no apart ↦
        let found = get-insert bytes_discrete id other entry pool.entries in
        let before : Map.get bytes_discrete other pool.entries ≡ some e = ground arith in
        All-imp _ e.tx.inputs
          (λ input kept.
            get-claim_ne id (outpoint_of input) entry.tx.inputs pool.spends (
              All-imp _ entry.tx.inputs
                (λ new unheld same. let there = rw same at unheld in absurd (ground arith)) free)
            ∙ kept)
          (held.owner other e before)
  ];
}

check_mempool_conflicts-Free :
    (pool : Mempool) (inputs : List TxInput) (u : Unit {0})
    → check_mempool_conflicts pool.spends inputs ≡ ok u
    → Free inputs pool
unfolding check_mempool_conflicts
check_mempool_conflicts-Free pool [] u h = tt
check_mempool_conflicts-Free pool (input ∷ inputs) u h =
    elim (Option-cases (Map.get outpoint_discrete (outpoint_of input) pool.spends)) [
      | inr (existing, e) ↦ absurd (ground arith)
      | inl e ↦
          let rest : check_mempool_conflicts pool.spends inputs ≡ ok u = ground arith in
          (e, check_mempool_conflicts-Free pool inputs u rest)
    ]

module _ (crypto : Primitives) where
  check_tx-Free :
      (pool : Mempool) (tx : Transaction) (chain_utxo : UtxoSet) (checked : ℕ × ℕ)
      → check_tx crypto pool tx chain_utxo ≡ ok checked
      → Free tx.inputs pool
  unfolding check_tx
  check_tx-Free pool tx chain_utxo checked h =
      let (size', e₁, h₁) = >>=-eq-ok (validate_tx_structure tx) _ h in
      let (u₂, e₂, h₂) = >>=-eq-ok (reject_if (is_coinbase tx) coinbase_rejected) _ h₁ in
      let (u₃, e₃, h₃) =
        >>=-eq-ok (reject_if (contains pool (txid crypto tx)) (duplicate (txid crypto tx))) _ h₂ in
      let (u₄, e₄, h₄) = >>=-eq-ok (check_duplicate_inputs crypto tx) _ h₃ in
      let (u₅, e₅, h₅) = >>=-eq-ok (check_mempool_conflicts pool.spends tx.inputs) _ h₄ in
      check_mempool_conflicts-Free pool tx.inputs u₅ e₅

  -- In the pool that admission leaves, whatever its outcome, every output that a transaction of
  -- the pool spends is held by that transaction, if it was so before.
  pub accept_tx-Held :
      (pool after : Mempool) (tx : Transaction) (chain_utxo : UtxoSet)
      (outcome : Result MempoolError AcceptedTx)
      → Held pool
      → accept_tx crypto pool tx chain_utxo ≡ some (after, outcome)
      → Held after
  accept_tx-Held pool after tx chain_utxo outcome held h =
      accept_tx-keeps crypto tx chain_utxo Held (Free tx.inputs) remove_entry-Held
        (remove_entry-Free tx.inputs)
        (λ left entry same held' free.
          insert_entry-Held left (txid crypto tx) entry held' (rw same free))
        pool after outcome (check_tx-Free pool tx chain_utxo) held h
