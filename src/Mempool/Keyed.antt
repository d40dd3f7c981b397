-- ===== src/Mempool/Keyed.antt =====
-- The entries of the pool of crates/bitrst-core/src/mempool.rs stand under their own hashes.
use bitrst.Base.{
  ℕ, ◌≡◌, ◌≢◌, refl, List, [], ◌∷◌, subst, All, All-imp, none, some, Result, Option-cases,
  Bool-cases, inl, inr, arith, ltb,
}
use bitrst.Base.Map
use bitrst.Base.Keys.{bytes_discrete}
use bitrst.Crypto.{Primitives}
use bitrst.Transaction.Types.{Transaction}
use bitrst.Transaction.Encode.{txid}
use bitrst.Utxo.Types.{UtxoSet}
use bitrst.Mempool.Types.{MempoolEntry, Mempool, MempoolError, AcceptedTx}
use bitrst.Mempool.Pool.{Entries, insert_by_seq, ordered, insert_entry, remove_entry, accept_tx}
use bitrst.Mempool.Admission.{accept_tx-keeps}

-- `entries.contains_key(&id)`
abbrev pub Present : Entries → List ℕ → Type 0
Present entries id = Map.get bytes_discrete id entries ≢ none

All-insert_by_seq :
    (P : MempoolEntry → Type 0) (entry : MempoolEntry) (entries : List MempoolEntry)
    → P entry
    → All P entries
    → All P (insert_by_seq entry entries)
All-insert_by_seq P entry [] h hs = (h, tt)
All-insert_by_seq P entry (next ∷ rest) h hs = elim (Bool-cases (ltb next.seq entry.seq)) [
  | inl later ↦ rw later (hs.0, All-insert_by_seq P entry rest h hs.1)
  | inr sooner ↦ rw sooner (h, hs)
]

pub Present-∷ :
    (entries : Entries) (j : List ℕ) (entry : MempoolEntry) (id : List ℕ)
    → Present entries id
    → Present ((j, entry) ∷ entries) id
unfolding Map.get
Present-∷ entries j entry id h = λ e. ground (arith, h)

module _ (crypto : Primitives) where
  abbrev Own : List ℕ × MempoolEntry → Type 0
  Own (id, entry) = id ≡ txid crypto entry.tx

  pub record Keyed (pool : Mempool) : Type 0 where
    pub own : All Own pool.entries

  All-remove :
      (id : List ℕ) (entries : Entries)
      → All Own entries
      → All Own (Map.remove bytes_discrete id entries)
  unfolding Map.remove
  All-remove id [] h = tt
  All-remove id ((j, entry) ∷ entries) h = ground (arith, All-remove id entries h.1)

  -- Every entry in order is found under the hash of its transaction.
  pub ordered-Present :
      (entries : Entries)
      → All Own entries
      → All (λ (entry : MempoolEntry). Present entries (txid crypto entry.tx)) (ordered entries)
  unfolding ordered Map.get
  ordered-Present [] h = tt
  ordered-Present ((id, entry) ∷ entries) (own, owns) =
      let here : Present ((id, entry) ∷ entries) (txid crypto entry.tx) =
        λ e. ground (arith, own) in
      All-insert_by_seq (λ e. Present ((id, entry) ∷ entries) (txid crypto e.tx)) entry
        (ordered entries) here
        (All-imp (λ e. Present entries (txid crypto e.tx)) (ordered entries)
          (λ e there. Present-∷ entries id entry (txid crypto e.tx) there)
          (ordered-Present entries owns))

  pub remove_entry-Keyed :
      (pool : Mempool) (id : List ℕ) → Keyed pool → Keyed (remove_entry pool id)
  unfolding remove_entry
  remove_entry-Keyed pool id keyed = elim (Option-cases (Map.get bytes_discrete id pool.entries)) [
    | inl gone ↦ rw gone keyed
    | inr (entry, found) ↦ rw found (record { own = All-remove id pool.entries keyed.own })
  ]

  insert_entry-Keyed :
      (pool : Mempool) (entry : MempoolEntry)
      → Keyed pool
      → Keyed (insert_entry pool (txid crypto entry.tx) entry)
  unfolding insert_entry Map.insert
  insert_entry-Keyed pool entry keyed = record {
    own = (refl, All-remove (txid crypto entry.tx) pool.entries keyed.own);
  }

  pub accept_tx-Keyed :
      (pool after : Mempool) (tx : Transaction) (chain_utxo : UtxoSet)
      (outcome : Result MempoolError AcceptedTx)
      → Keyed pool
      → accept_tx crypto pool tx chain_utxo ≡ some (after, outcome)
      → Keyed after
  accept_tx-Keyed pool after tx chain_utxo outcome keyed h =
      accept_tx-keeps crypto tx chain_utxo Keyed (λ left. Unit) remove_entry-Keyed (λ left id u. tt)
        (λ left entry same keyed' u.
          subst (λ t. Keyed (insert_entry left (txid crypto t) entry)) same
            (insert_entry-Keyed left entry keyed'))
        pool after outcome (λ checked e. tt) keyed h
