-- ===== src/Mempool/Revalidate.antt =====
-- The revalidation of the pool of crates/bitrst-core/src/mempool.rs ends, on a pool whose
-- transactions are valid one after the other.
use bitrst.Base.{
  ℕ, zero, suc, ◌≤◌, ◌<◌, ◌≡◌, refl, List, [], ◌∷◌, All, some, true, false, length, ◌==◌,
  Option-cases, Bool-cases, inl, inr, arith,
}
use bitrst.Base.Map
use bitrst.Base.Keys.{bytes_discrete}
use bitrst.Crypto.{Primitives}
use bitrst.Transaction.Encode.{txid}
use bitrst.Utxo.Types.{UtxoSet}
use bitrst.Utxo.Apply.{apply_transaction}
use bitrst.Mempool.Types.{MempoolEntry, Mempool, len}
use bitrst.Mempool.Validate.{is_valid_for_view}
use bitrst.Mempool.Pool.{ordered, remove_entry, remove_entries}
use bitrst.Mempool.Sync.{find_invalid, find_invalid_txids, revalidate, revalidate_pool}
use bitrst.Mempool.Accounts.{
  Accounted, Shrunk, Shrunk-refl, Shrunk-trans, remove_entry-shorter, remove_entry-Accounted,
  remove_entries-Accounted,
}
use bitrst.Mempool.Spends.{remove_entries-keeps}
use bitrst.Mempool.Keyed.{Keyed, Present, ordered-Present, remove_entry-Keyed}

-- Removing entries of which the first is there makes the pool shorter.
remove_entries-shorter :
    (pool : Mempool) (id : List ℕ) (ids : List (List ℕ))
    → Accounted pool
    → Present pool.entries id
    → suc (len (remove_entries pool (id ∷ ids))) ≤ len pool
unfolding remove_entries
remove_entries-shorter pool id ids acc there =
    elim (Option-cases (Map.get bytes_discrete id pool.entries)) [
      | inl gone ↦ absurd (there gone)
      | inr (entry, found) ↦
          let (acc₁, shrunk₁) = remove_entry-Accounted pool id acc in
          let (acc₂, shrunk₂) = remove_entries-Accounted (remove_entry pool id) ids acc₁ in
          let first = remove_entry-shorter pool id entry found in
          let rest = shrunk₂.fewer in omega arith
    ]

module _ (crypto : Primitives) where
  -- Each transaction is valid on the outputs that those before it leave.
  abbrev pub Replays : UtxoSet → List MempoolEntry → Type 0
  Replays view [] = Unit
  Replays view (entry ∷ entries) =
      (is_valid_for_view crypto entry.tx view ≡ true)
      × Replays (apply_transaction crypto view entry.tx).0 entries

  find_invalid-Replays :
      (view : UtxoSet) (entries : List MempoolEntry)
      → find_invalid crypto view entries ≡ []
      → Replays view entries
  unfolding find_invalid
  find_invalid-Replays view [] h = tt
  find_invalid-Replays view (entry ∷ entries) h =
      elim (Bool-cases (is_valid_for_view crypto entry.tx view)) [
        | inl valid ↦
            let rest : find_invalid crypto (apply_transaction crypto view entry.tx).0 entries ≡ [] =
              rw valid at h in
            (valid, find_invalid-Replays (apply_transaction crypto view entry.tx).0 entries rest)
        | inr invalid ↦
            let rest : txid crypto entry.tx ∷ find_invalid crypto view entries ≡ [] =
              rw invalid at h in
            absurd (ground arith)
      ]

  -- What is found is a hash of an entry.
  find_invalid-All :
      (P : List ℕ → Type 0) (view : UtxoSet) (entries : List MempoolEntry)
      → All (λ (entry : MempoolEntry). P (txid crypto entry.tx)) entries
      → All P (find_invalid crypto view entries)
  unfolding find_invalid
  find_invalid-All P view [] hs = tt
  find_invalid-All P view (entry ∷ entries) (h, hs) =
      elim (Bool-cases (is_valid_for_view crypto entry.tx view)) [
        | inl valid ↦
            rw valid (find_invalid-All P (apply_transaction crypto view entry.tx).0 entries hs)
        | inr invalid ↦ rw invalid (h, find_invalid-All P view entries hs)
      ]

  -- A pool that revalidation may leave of another.
  pub record Settled (chain_utxo : UtxoSet) (before after : Mempool) : Type 0 where
    pub replays : Replays chain_utxo (ordered after.entries)
    pub keyed : Keyed crypto after
    pub accounted : Accounted after
    pub shrunk : Shrunk before after

  revalidate_round :
      (fuel : ℕ) (pool : Mempool) (chain_utxo : UtxoSet) (invalid : List (List ℕ))
      → find_invalid_txids crypto pool chain_utxo ≡ invalid
      → ((left : Mempool)
          → len left < fuel
          → Keyed crypto left
          → Accounted left
          → (after : Mempool) × (revalidate crypto fuel left chain_utxo ≡ some after)
            × Settled chain_utxo left after)
      → len pool < suc fuel
      → Keyed crypto pool
      → Accounted pool
      → (after : Mempool) × (revalidate crypto (suc fuel) pool chain_utxo ≡ some after)
        × Settled chain_utxo pool after
  unfolding revalidate find_invalid_txids
  revalidate_round fuel pool chain_utxo [] found again enough keyed acc = (
    pool,
    rw found refl,
    record {
      replays = find_invalid-Replays chain_utxo (ordered pool.entries) found;
      keyed = keyed;
      accounted = acc;
      shrunk = Shrunk-refl pool;
    },
  )
  revalidate_round fuel pool chain_utxo (id ∷ ids) found again enough keyed acc =
      let there =
        find_invalid-All (Present pool.entries) chain_utxo (ordered pool.entries)
          (ordered-Present crypto pool.entries keyed.own) in
      let first : All (Present pool.entries) (id ∷ ids) = rw found at there in
      let some_left : (length (id ∷ ids) == 0) ≡ false = ground arith in
      let shorter = remove_entries-shorter pool id ids acc first.0 in
      let (acc₁, shrunk₁) = remove_entries-Accounted pool (id ∷ ids) acc in
      let (after, e, settled) =
        again (remove_entries pool (id ∷ ids)) (omega arith)
          (remove_entries-keeps (Keyed crypto) (remove_entry-Keyed crypto) pool (id ∷ ids) keyed)
          acc₁ in
      (
        after,
        rw (found, some_left) e,
        record {
          replays = settled.replays;
          keyed = settled.keyed;
          accounted = settled.accounted;
          shrunk = Shrunk-trans _ _ _ shrunk₁ settled.shrunk;
        },
      )

  revalidate_total :
      (fuel : ℕ) (pool : Mempool) (chain_utxo : UtxoSet)
      → len pool < fuel
      → Keyed crypto pool
      → Accounted pool
      → (after : Mempool) × (revalidate crypto fuel pool chain_utxo ≡ some after)
        × Settled chain_utxo pool after
  revalidate_total zero pool chain_utxo enough keyed acc = absurd (omega arith)
  revalidate_total (suc fuel) pool chain_utxo enough keyed acc =
      revalidate_round fuel pool chain_utxo _ refl (λ left. revalidate_total fuel left chain_utxo)
        enough keyed acc

  -- Revalidation of the pool ends, if every entry stands under its own hash, once, with its bytes
  -- counted, which stays so. In the pool that is left each transaction is valid, in the order of
  -- admission, on the outputs of the chain and of those before it; no hash is new.
  pub revalidate_pool_total :
      (pool : Mempool) (chain_utxo : UtxoSet)
      → Keyed crypto pool
      → Accounted pool
      → (after : Mempool) × (revalidate_pool crypto pool chain_utxo ≡ some after)
        × Settled chain_utxo pool after
  unfolding revalidate_pool
  revalidate_pool_total pool chain_utxo keyed acc =
      revalidate_total (suc (len pool)) pool chain_utxo (omega arith) keyed acc
