-- ===== src/Mempool/Bounds.antt =====
-- Admission to the pool of crates/bitrst-core/src/mempool.rs ends, and keeps it within its limits.
use bitrst.Base.{
  ℕ, zero, suc, ◌+◌, ◌≤◌, ◌<◌, ◌≡◌, refl, ap, ◌∙◌, List, none, some, false, Result, ok, err,
  Option-cases, Bool-cases, Result-cases, >>=-eq-ok, reject_if, inl, inr, arith,
}
use bitrst.Base.Map
use bitrst.Base.Map.{insert-Distinct, total-insert_new, remove_absent}
use bitrst.Base.Keys.{bytes_discrete}
use bitrst.Crypto.{Primitives}
use bitrst.Transaction.Types.{Transaction}
use bitrst.Transaction.Encode.{txid}
use bitrst.Utxo.Types.{UtxoSet, is_coinbase}
use bitrst.Mempool.Validate.{validate_tx_structure}
use bitrst.Mempool.Types.{
  MempoolEntry, Mempool, MempoolError, AcceptedTx, at_capacity, len, contains, coinbase_rejected,
  duplicate,
}
use bitrst.Mempool.Pool.{
  would_exceed_limits, insert_entry, evict_lowest, make_room, make_room_for, check_tx, candidate_of,
  accept_tx,
}
use bitrst.Mempool.Accounts.{Accounted, Shrunk, Shrunk-refl, Shrunk-trans, evict_lowest-Accounted}

-- There is room for the candidate if the loop ended well.
abbrev Roomy : MempoolEntry → Mempool → Result MempoolError (Unit {0}) → Type 0
Roomy candidate pool (err e) = Unit
Roomy candidate pool (ok done) = would_exceed_limits pool candidate.size ≡ false

make_room_total :
    (fuel : ℕ) (pool : Mempool) (candidate : MempoolEntry)
    → len pool < fuel
    → Accounted pool
    → (after : Mempool) × (outcome : Result MempoolError (Unit {0})) × (make_room fuel pool
          candidate
        ≡ some (after, outcome))
      × Accounted after
      × Shrunk pool after
      × Roomy candidate after outcome
unfolding make_room
make_room_total zero pool candidate enough acc = absurd (omega arith)
make_room_total (suc fuel) pool candidate enough acc =
    elim (Bool-cases (would_exceed_limits pool candidate.size)) [
      | inr fits ↦ (pool, ok tt, rw (make_room, fits) refl, acc, Shrunk-refl pool, fits)
      | inl over ↦ elim (Option-cases (evict_lowest pool candidate)) [
        | inl stays ↦
            (pool, err at_capacity, rw (make_room, over, stays) refl, acc, Shrunk-refl pool, tt)
        | inr (left, e) ↦
            let (acc₁, shrunk₁, shorter) = evict_lowest-Accounted pool left candidate acc e in
            let (after, outcome, e', acc₂, shrunk₂, roomy) =
              make_room_total fuel left candidate (omega arith) acc₁ in
            (
              after,
              outcome,
              rw (make_room, over, e) e',
              acc₂,
              Shrunk-trans pool left after shrunk₁ shrunk₂,
              roomy,
            )
      ]
    ]

-- An accepted transaction leaves the pool within its limits.
abbrev pub Bounded : Mempool → Result MempoolError AcceptedTx → Type 0
Bounded pool (err e) = Unit
Bounded pool (ok accepted) =
    (len pool ≤ pool.limits.max_tx_count) × (pool.total_bytes ≤ pool.limits.max_bytes)

insert_entry-Accounted :
    (pool : Mempool) (id : List ℕ) (entry : MempoolEntry)
    → Accounted pool
    → Map.get bytes_discrete id pool.entries ≡ none
    → would_exceed_limits pool entry.size ≡ false
    → Accounted (insert_entry pool id entry)
      × (len (insert_entry pool id entry) ≤ pool.limits.max_tx_count)
      × (pool.total_bytes + entry.size ≤ pool.limits.max_bytes)
unfolding insert_entry len would_exceed_limits Map.insert
insert_entry-Accounted pool id entry acc absent fits =
    let sum =
      total-insert_new bytes_discrete (λ (x : MempoolEntry). x.size) id entry pool.entries absent in
    let bytes = acc.bytes in
    (
      record {
        distinct = insert-Distinct bytes_discrete id entry pool.entries acc.distinct;
        bytes = omega arith;
      },
      rw (remove_absent bytes_discrete id pool.entries absent) (ground arith),
      ground arith,
    )

module _ (crypto : Primitives) where
  -- A transaction that passes the checks is not in the pool.
  check_tx-absent :
      (pool : Mempool) (tx : Transaction) (chain_utxo : UtxoSet) (checked : ℕ × ℕ)
      → check_tx crypto pool tx chain_utxo ≡ ok checked
      → Map.get bytes_discrete (txid crypto tx) pool.entries ≡ none
  unfolding check_tx contains
  check_tx-absent pool tx chain_utxo checked h =
      let (size, e₁, h₁) = >>=-eq-ok (validate_tx_structure tx) _ h in
      let (u₂, e₂, h₂) = >>=-eq-ok (reject_if (is_coinbase tx) coinbase_rejected) _ h₁ in
      let (u₃, e₃, h₃) =
        >>=-eq-ok (reject_if (contains pool (txid crypto tx)) (duplicate (txid crypto tx))) _ h₂ in
      elim (Option-cases (Map.get bytes_discrete (txid crypto tx) pool.entries)) [
        | inl absent ↦ absent
        | inr (entry, found) ↦
            let refused : err (duplicate (txid crypto tx)) ≡ ok u₃ = rw found at e₃ in
            absurd (ground arith)
      ]

  -- Admission always ends with an outcome. In a pool that holds no transaction twice and counts
  -- its bytes, that stays so, the limits stay what they are, and the pool is within them if the
  -- transaction is accepted.
  pub accept_tx_total :
      (pool : Mempool) (tx : Transaction) (chain_utxo : UtxoSet)
      → Accounted pool
      → (after : Mempool) × (outcome : Result MempoolError AcceptedTx) × (accept_tx crypto pool tx
            chain_utxo
          ≡ some (after, outcome))
        × (after.limits ≡ pool.limits)
        × Accounted after
        × Bounded after outcome
  unfolding accept_tx make_room_for insert_entry
  accept_tx_total pool tx chain_utxo acc =
      elim (Result-cases (check_tx crypto pool tx chain_utxo)) [
        | inr (e, refused) ↦ (pool, err e, rw (accept_tx, refused) refl, refl, acc, tt)
        | inl ((size, fee), checked) ↦
            let candidate = candidate_of pool tx size fee in
            let (after, outcome, e, acc₁, shrunk, roomy) =
              make_room_total (suc (len pool)) pool candidate (omega arith) acc in
            let id = txid crypto tx in
            elim (Result-cases outcome) [
              | inr (x, full) ↦
                  let e' : make_room (suc (len pool)) pool candidate ≡ some (after, err x) =
                    e ∙ ap (λ o. some (after, o)) full in
                  (after, err x, rw (accept_tx, checked, e') refl, shrunk.limits, acc₁, tt)
              | inl (done, well) ↦
                  let e' : make_room (suc (len pool)) pool candidate ≡ some (after, ok done) =
                    e ∙ ap (λ o. some (after, o)) well in
                  let absent =
                    shrunk.none_new id (check_tx-absent pool tx chain_utxo (size, fee) checked) in
                  let fits : would_exceed_limits after size ≡ false = rw well at roomy in
                  let (acc₂, count, bytes) =
                    insert_entry-Accounted after id candidate acc₁ absent fits in
                  (
                    insert_entry after id candidate,
                    ok (record { txid = id; fee = fee; size = size }),
                    rw (accept_tx, checked, e') refl,
                    shrunk.limits,
                    acc₂,
                    (count, bytes),
                  )
            ]
      ]
