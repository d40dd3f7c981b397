-- ===== src/Mempool/Accepted.antt =====
-- What an accepted transaction of crates/bitrst-core/src/mempool.rs has passed.
use bitrst.Base.{
  ℕ, ◌+◌, ◌≤◌, ◌≡◌, refl, sym, ap, ◌∙◌, List, All, Option, none, some, Bool, true, false, ltb, ◌==◌,
  not, ◌&&◌, length, Result, ok, err, Result-cases, >>=-eq-ok, map_err, reject_if, inl, inr, ltb→le,
  arith,
}
use bitrst.Crypto.{Primitives}
use bitrst.Limits.{max_transaction_serialized_size}
use bitrst.Transaction.Types.{Transaction}
use bitrst.Transaction.Encode.{serialized_size, txid}
use bitrst.Utxo.Types.{UtxoSet, is_coinbase}
use bitrst.Utxo.Validate.{validate_transaction}
use bitrst.Utxo.Sums.{value_in, value_out, IsUnspent}
use bitrst.Mempool.Types.{
  MempoolEntry, Mempool, MempoolError, AcceptedTx, oversized, malformed, utxo, coinbase_rejected,
  duplicate, contains,
}
use bitrst.Mempool.Validate.{
  validate_tx_structure, check_input_scripts, check_output_scripts, check_duplicate_inputs,
  compute_fee, verify_scripts,
}
use bitrst.Mempool.Pool.{
  check_mempool_conflicts, build_validation_view, make_room_for, check_tx, candidate_of, admit,
  accept_tx,
}
use bitrst.Mempool.Priority.{compute_fee-eq}

reject_if-ok : (b : Bool) (e : MempoolError) (u : Unit {0}) → reject_if b e ≡ ok u → b ≡ false
reject_if-ok true e u h = absurd (ground arith)
reject_if-ok false e u h = refl

validate_tx_structure-ok :
    (tx : Transaction) (size : ℕ)
    → validate_tx_structure tx ≡ ok size
    → (size ≡ serialized_size tx) × (size ≤ max_transaction_serialized_size)
unfolding validate_tx_structure
validate_tx_structure-ok tx size h =
    let (u₁, e₁, h₁) =
      >>=-eq-ok
        (reject_if (ltb max_transaction_serialized_size (serialized_size tx))
          (oversized (serialized_size tx) max_transaction_serialized_size))
        _ h in
    let (u₂, e₂, h₂) =
      >>=-eq-ok (reject_if (length tx.outputs == 0) (malformed "transaction has no outputs")) _
        h₁ in
    let (u₃, e₃, h₃) =
      >>=-eq-ok
        (reject_if (not (is_coinbase tx) && (length tx.inputs == 0))
          (malformed "non-coinbase transaction has no inputs"))
        _ h₂ in
    let (u₄, e₄, h₄) = >>=-eq-ok (check_input_scripts tx.inputs) _ h₃ in
    let (u₅, e₅, h₅) = >>=-eq-ok (check_output_scripts tx.outputs) _ h₄ in
    let same : serialized_size tx ≡ size = ground arith in
    let at = ltb→le max_transaction_serialized_size (serialized_size tx) (reject_if-ok _ _ u₁ e₁) in
    (sym same, rw (sym same) at)

admit-ok :
    (id : List ℕ) (candidate : MempoolEntry) (fee : ℕ)
    (room : Option (Mempool × Result MempoolError (Unit {0}))) (after : Mempool)
    (accepted : AcceptedTx)
    → admit id candidate fee room ≡ some (after, ok accepted)
    → record { txid = id; fee = fee; size = candidate.size } ≡ accepted
admit-ok id candidate fee none after accepted h = absurd (ground arith)
admit-ok id candidate fee (some (pool, err e)) after accepted h = absurd (ground arith)
admit-ok id candidate fee (some (pool, ok done)) after accepted h = ground arith

-- What the pool's checks on an accepted transaction establish.
pub record Sound (crypto : Primitives) (tx : Transaction) (view : UtxoSet) (accepted : AcceptedTx)
    : Type 0 where
  pub id : accepted.txid ≡ txid crypto tx
  pub size : accepted.size ≡ serialized_size tx
  pub small : accepted.size ≤ max_transaction_serialized_size
  pub plain : is_coinbase tx ≡ false
  pub unspent : All (IsUnspent view) tx.inputs
  pub fee : value_in view tx.inputs ≡ value_out tx.outputs + accepted.fee
  pub valid : validate_transaction view tx ≡ ok tt
  pub scripts : verify_scripts crypto tx view ≡ ok tt

map_err-ok_unit :
    (r : Result bitrst.Utxo.Types.UtxoError (Unit {0})) (u : Unit {0})
    → map_err utxo r ≡ ok u
    → r ≡ ok tt
map_err-ok_unit (ok tt) u h = refl
map_err-ok_unit (err e) u h = absurd (ground arith)

module _ (crypto : Primitives) where
  check_tx-Sound :
      (pool : Mempool) (tx : Transaction) (chain_utxo : UtxoSet) (size fee : ℕ)
      → check_tx crypto pool tx chain_utxo ≡ ok (size, fee)
      → Sound crypto tx
          (build_validation_view crypto pool chain_utxo)
          (record { txid = txid crypto tx; fee = fee; size = size })
  unfolding check_tx
  check_tx-Sound pool tx chain_utxo size fee h =
      let view = build_validation_view crypto pool chain_utxo in
      let (size', e₁, h₁) = >>=-eq-ok (validate_tx_structure tx) _ h in
      let (u₂, e₂, h₂) = >>=-eq-ok (reject_if (is_coinbase tx) coinbase_rejected) _ h₁ in
      let (u₃, e₃, h₃) =
        >>=-eq-ok (reject_if (contains pool (txid crypto tx)) (duplicate (txid crypto tx))) _ h₂ in
      let (u₄, e₄, h₄) = >>=-eq-ok (check_duplicate_inputs crypto tx) _ h₃ in
      let (u₅, e₅, h₅) = >>=-eq-ok (check_mempool_conflicts pool.spends tx.inputs) _ h₄ in
      let (u₆, e₆, h₆) = >>=-eq-ok (map_err utxo (validate_transaction view tx)) _ h₅ in
      let (fee', e₇, h₇) = >>=-eq-ok (compute_fee tx view) _ h₆ in
      let (u₈, e₈, h₈) = >>=-eq-ok (verify_scripts crypto tx view) _ h₇ in
      let same_size : size' ≡ size = ground arith in
      let same_fee : fee' ≡ fee = ground arith in
      let (whole, small) = validate_tx_structure-ok tx size' e₁ in
      let (unspent, paid) = compute_fee-eq tx view fee' e₇ in
      record {
        id = refl;
        size = sym same_size ∙ whole;
        small = rw (sym same_size) small;
        plain = reject_if-ok _ _ u₂ e₂;
        unspent = unspent;
        fee = paid ∙ ap (λ (n : ℕ). value_out tx.outputs + n) same_fee;
        valid = map_err-ok_unit (validate_transaction view tx) u₆ e₆;
        scripts = e₈;
      }

  -- An accepted transaction is no coinbase, is valid and has valid scripts against the chain's
  -- outputs and those of the pool, is no larger than allowed, and the reported fee is what its
  -- inputs are worth beyond its outputs.
  pub accept_tx-Sound :
      (pool after : Mempool) (tx : Transaction) (chain_utxo : UtxoSet) (accepted : AcceptedTx)
      → accept_tx crypto pool tx chain_utxo ≡ some (after, ok accepted)
      → Sound crypto tx (build_validation_view crypto pool chain_utxo) accepted
  unfolding accept_tx
  accept_tx-Sound pool after tx chain_utxo accepted h =
      elim (Result-cases (check_tx crypto pool tx chain_utxo)) [
        | inr (e, refused) ↦
            let same : some (pool, err e) ≡ some (after, ok accepted) =
              rw (accept_tx, refused) at h in
            absurd (ground arith)
        | inl ((size, fee), checked) ↦
            let candidate = candidate_of pool tx size fee in
            let admitted : admit (txid crypto tx) candidate fee (make_room_for pool candidate)
                ≡ some (after, ok accepted) =
              rw (accept_tx, checked) at h in
            let same =
              admit-ok (txid crypto tx) candidate fee (make_room_for pool candidate) after accepted
                admitted in
            let sound = check_tx-Sound pool tx chain_utxo size fee checked in rw same at sound
      ]
