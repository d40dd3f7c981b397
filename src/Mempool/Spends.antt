-- ===== src/Mempool/Spends.antt =====
-- The pool of crates/bitrst-core/src/mempool.rs never holds two transactions that spend one output.
use bitrst.Base.{
  ℕ, zero, suc, ◌≡◌, ◌≢◌, refl, sym, ◌∙◌, List, [], ◌∷◌, All, All-imp, none, some, Result, ok, err,
  Option-cases, Bool-cases, inl, inr, arith,
}
use bitrst.Base.Map
use bitrst.Base.Map.{get-remove, get-remove_self, get-remove_ne, get-insert}
use bitrst.Base.Keys.{bytes_discrete}
use bitrst.Transaction.Types.{TxInput}
use bitrst.Utxo.Types.{OutPoint, outpoint_of, outpoint_discrete}
use bitrst.Mempool.Types.{MempoolEntry, Mempool, MempoolError, at_capacity}
use bitrst.Mempool.Pool.{
  Spends, claim, retain_others, remove_entry, remove_entries, remove_entry_and_descendants,
  descendants_of, lowest_priority_txid, should_evict, would_exceed_limits, evict_lowest, make_room,
}

-- The output that every input of an entry spends is held by that entry.
pub record Held (pool : Mempool) : Type 0 where
  pub owner :
      (id : List ℕ) (entry : MempoolEntry)
      → Map.get bytes_discrete id pool.entries ≡ some entry
      → All
          (λ input. Map.get outpoint_discrete (outpoint_of input) pool.spends ≡ some id)
          entry.tx.inputs

get-retain_others :
    (id owner : List ℕ) (outpoint : OutPoint) (spends : Spends)
    → owner ≢ id
    → Map.get outpoint_discrete outpoint spends ≡ some owner
    → Map.get outpoint_discrete outpoint (retain_others id spends) ≡ some owner
unfolding Map.get retain_others
get-retain_others id owner outpoint [] ne h = absurd (ground arith)
get-retain_others id owner outpoint ((o, w) ∷ spends) ne h =
    ground (arith, get-retain_others id owner outpoint spends ne)

get-retain_others-none :
    (id : List ℕ) (outpoint : OutPoint) (spends : Spends)
    → Map.get outpoint_discrete outpoint spends ≡ none
    → Map.get outpoint_discrete outpoint (retain_others id spends) ≡ none
unfolding Map.get retain_others
get-retain_others-none id outpoint [] h = refl
get-retain_others-none id outpoint ((o, w) ∷ spends) h =
    ground (arith, get-retain_others-none id outpoint spends)

pub get-claim_ne :
    (id : List ℕ) (outpoint : OutPoint) (inputs : List TxInput) (spends : Spends)
    → All (λ input. outpoint_of input ≢ outpoint) inputs
    → Map.get outpoint_discrete outpoint (claim id inputs spends)
      ≡ Map.get outpoint_discrete outpoint spends
get-claim_ne id outpoint [] spends h = refl
get-claim_ne id outpoint (input ∷ inputs) spends (ne, h) =
    get-claim_ne id outpoint inputs (Map.insert outpoint_discrete (outpoint_of input) id spends) h
    ∙ get-insert outpoint_discrete (outpoint_of input) outpoint id spends
    ∙ ground arith

-- What is claimed once for a transaction stays its own.
get-claim_kept :
    (id : List ℕ) (outpoint : OutPoint) (inputs : List TxInput) (spends : Spends)
    → Map.get outpoint_discrete outpoint spends ≡ some id
    → Map.get outpoint_discrete outpoint (claim id inputs spends) ≡ some id
get-claim_kept id outpoint [] spends h = h
get-claim_kept id outpoint (input ∷ inputs) spends h =
    get-claim_kept id outpoint inputs (Map.insert outpoint_discrete (outpoint_of input) id spends)
      (get-insert outpoint_discrete (outpoint_of input) outpoint id spends ∙ ground arith)

pub claim-Held :
    (id : List ℕ) (inputs : List TxInput) (spends : Spends)
    → All
        (λ input. Map.get outpoint_discrete (outpoint_of input) (claim id inputs spends) ≡ some id)
        inputs
claim-Held id [] spends = tt
claim-Held id (input ∷ inputs) spends =
    let now = Map.insert outpoint_discrete (outpoint_of input) id spends in
    (
      get-claim_kept id (outpoint_of input) inputs now (
          get-insert outpoint_discrete (outpoint_of input) (outpoint_of input) id spends
          ∙ ground arith),
      claim-Held id inputs now,
    )

-- No output that the inputs spend is held.
abbrev pub Free : List TxInput → Mempool → Type 0
Free inputs pool =
    All (λ input. Map.get outpoint_discrete (outpoint_of input) pool.spends ≡ none) inputs

pub remove_entry-Held : (pool : Mempool) (id : List ℕ) → Held pool → Held (remove_entry pool id)
unfolding remove_entry
remove_entry-Held pool id held = elim (Option-cases (Map.get bytes_discrete id pool.entries)) [
  | inl gone ↦ rw gone held
  | inr (removed, found) ↦ rw found (record {
    owner = λ other entry h. elim (bytes_discrete id other) [
      | yes same ↦
          let none_left = get-remove_self bytes_discrete id pool.entries in
          let h' : Map.get bytes_discrete id (Map.remove bytes_discrete id pool.entries)
              ≡ some entry =
            rw (sym same) at h in
          absurd (ground arith)
      | no apart ↦
          let h' = sym (get-remove_ne bytes_discrete id other pool.entries apart) ∙ h in
          All-imp _ entry.tx.inputs
            (λ input kept.
              get-retain_others id other (outpoint_of input) pool.spends (λ e. apart (sym e)) kept)
            (held.owner other entry h')
    ];
  })
]

pub remove_entry-Free :
    (inputs : List TxInput) (pool : Mempool) (id : List ℕ)
    → Free inputs pool
    → Free inputs (remove_entry pool id)
unfolding remove_entry
remove_entry-Free inputs pool id free =
    elim (Option-cases (Map.get bytes_discrete id pool.entries)) [
      | inl gone ↦ rw gone free
      | inr (removed, found) ↦ rw found (
          All-imp _ inputs (λ input h. get-retain_others-none id (outpoint_of input) pool.spends h)
            free)
    ]

-- What every removal keeps, making room keeps.
module _ (P : Mempool → Type 0)
    (closed : (pool : Mempool) (id : List ℕ) → P pool → P (remove_entry pool id)) where
  pub remove_entries-keeps :
      (pool : Mempool) (ids : List (List ℕ)) → P pool → P (remove_entries pool ids)
  unfolding remove_entries
  remove_entries-keeps pool [] h = h
  remove_entries-keeps pool (id ∷ ids) h =
      remove_entries-keeps (remove_entry pool id) ids (closed pool id h)

  evict_lowest-keeps :
      (pool after : Mempool) (candidate : MempoolEntry)
      → evict_lowest pool candidate ≡ some after
      → P pool
      → P after
  unfolding evict_lowest remove_entry_and_descendants
  evict_lowest-keeps pool after candidate e h = elim (Option-cases (lowest_priority_txid pool)) [
    | inl none_left ↦
        let e' : none ≡ some after = rw (evict_lowest, none_left) at e in absurd (ground arith)
    | inr (victim, lowest) ↦ elim (Bool-cases (should_evict pool victim candidate)) [
      | inr stays ↦
          let e' : none ≡ some after = rw (evict_lowest, lowest, stays) at e in
          absurd (ground arith)
      | inl goes ↦
          let e' : some (remove_entries pool (victim ∷ descendants_of pool victim)) ≡ some after =
            rw (evict_lowest, lowest, goes) at e in
          let same : remove_entries pool (victim ∷ descendants_of pool victim) ≡ after =
            ground arith in
          let kept = remove_entries-keeps pool (victim ∷ descendants_of pool victim) h in
          rw same at kept
    ]
  ]

  pub make_room-keeps :
      (fuel : ℕ) (pool after : Mempool) (candidate : MempoolEntry)
      (outcome : Result MempoolError (Unit {0}))
      → make_room fuel pool candidate ≡ some (after, outcome)
      → P pool
      → P after
  unfolding make_room
  make_room-keeps zero pool after candidate outcome e h = absurd (ground arith)
  make_room-keeps (suc fuel) pool after candidate outcome e h =
      elim (Bool-cases (would_exceed_limits pool candidate.size)) [
        | inr fits ↦
            let e' : some (pool, ok tt) ≡ some (after, outcome) = rw (make_room, fits) at e in
            let same : pool ≡ after = ground arith in rw same at h
        | inl over ↦ elim (Option-cases (evict_lowest pool candidate)) [
          | inl stays ↦
              let e' : some (pool, err at_capacity) ≡ some (after, outcome) =
                rw (make_room, over, stays) at e in
              let same : pool ≡ after = ground arith in rw same at h
          | inr (left, evicted) ↦
              let e' : make_room fuel left candidate ≡ some (after, outcome) =
                rw (make_room, over, evicted) at e in
              make_room-keeps fuel left after candidate outcome e'
                (evict_lowest-keeps pool left candidate evicted h)
        ]
      ]
