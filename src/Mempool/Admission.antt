-- ===== src/Mempool/Admission.antt =====
-- What `accept_tx` of crates/bitrst-core/src/mempool.rs keeps: what every removal keeps, and the
-- insertion behind them.
use bitrst.Base.{
  ℕ, suc, ◌≡◌, refl, List, none, some, Result, ok, err, Option-cases, Result-cases, inl, inr, arith,
}
use bitrst.Crypto.{Primitives}
use bitrst.Transaction.Types.{Transaction}
use bitrst.Transaction.Encode.{txid}
use bitrst.Utxo.Types.{UtxoSet}
use bitrst.Mempool.Types.{MempoolEntry, Mempool, MempoolError, AcceptedTx, len}
use bitrst.Mempool.Pool.{
  insert_entry, remove_entry, make_room, make_room_for, check_tx, candidate_of, admit, accept_tx,
}
use bitrst.Mempool.Spends.{make_room-keeps}

admit-keeps :
    (P : Mempool → Type 0) (id : List ℕ) (candidate : MempoolEntry) (fee : ℕ) (left after : Mempool)
    (room : Result MempoolError (Unit {0})) (outcome : Result MempoolError AcceptedTx)
    → admit id candidate fee (some (left, room)) ≡ some (after, outcome)
    → P left
    → P (insert_entry left id candidate)
    → P after
admit-keeps P id candidate fee left after (err e) outcome h p q =
    let same : left ≡ after = ground arith in rw same at p
admit-keeps P id candidate fee left after (ok done) outcome h p q =
    let same : insert_entry left id candidate ≡ after = ground arith in rw same at q

-- `Q` is what the checks on the transaction establish of the pool.
module _ (crypto : Primitives) (tx : Transaction) (chain_utxo : UtxoSet) (P Q : Mempool → Type 0)
    (closed : (pool : Mempool) (id : List ℕ) → P pool → P (remove_entry pool id))
    (closed_too : (pool : Mempool) (id : List ℕ) → Q pool → Q (remove_entry pool id))
    (inserts : (pool : Mempool) (entry : MempoolEntry)
      → entry.tx ≡ tx
      → P pool
      → Q pool
      → P (insert_entry pool (txid crypto tx) entry)) where
  pub accept_tx-keeps :
      (pool after : Mempool) (outcome : Result MempoolError AcceptedTx)
      → ((checked : ℕ × ℕ) → check_tx crypto pool tx chain_utxo ≡ ok checked → Q pool)
      → P pool
      → accept_tx crypto pool tx chain_utxo ≡ some (after, outcome)
      → P after
  unfolding accept_tx make_room_for
  accept_tx-keeps pool after outcome checks p h =
      elim (Result-cases (check_tx crypto pool tx chain_utxo)) [
        | inr (e, refused) ↦
            let same : some (pool, err e) ≡ some (after, outcome) = rw (accept_tx, refused) at h in
            let same' : pool ≡ after = ground arith in rw same' at p
        | inl ((size, fee), checked) ↦
            let candidate = candidate_of pool tx size fee in
            let admitted : admit (txid crypto tx) candidate fee
                  (make_room (suc (len pool)) pool candidate)
                ≡ some (after, outcome) =
              rw (accept_tx, checked) at h in
            elim (Option-cases (make_room (suc (len pool)) pool candidate)) [
              | inl out_of_fuel ↦
                  let stuck : none ≡ some (after, outcome) = rw out_of_fuel at admitted in
                  absurd (ground arith)
              | inr ((left, room), e) ↦
                  let admitted' : admit (txid crypto tx) candidate fee (some (left, room))
                      ≡ some (after, outcome) =
                    rw e at admitted in
                  let p' = make_room-keeps P closed (suc (len pool)) pool left candidate room e p in
                  let q' =
                    make_room-keeps Q closed_too (suc (len pool)) pool left candidate room e
                      (checks (size, fee) checked) in
                  admit-keeps P (txid crypto tx) candidate fee left after room outcome admitted' p'
                    (inserts left candidate refl p' q')
            ]
      ]
