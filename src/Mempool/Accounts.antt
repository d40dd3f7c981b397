-- ===== src/Mempool/Accounts.antt =====
-- What the pool of crates/bitrst-core/src/mempool.rs keeps count of, and its limits.
use bitrst.Base.{
  ℕ, suc, ◌≤◌, ◌≡◌, refl, ◌∙◌, List, [], ◌∷◌, none, some, Option-cases, Bool-cases, inl, inr, arith,
}
use bitrst.Base.Map
use bitrst.Base.Map.{
  Map, Distinct, total, size, remove-Distinct, insert-Distinct, total-remove, total-insert_new,
  get-remove, remove_absent, size-remove_found, size-remove-le,
}
use bitrst.Base.Keys.{bytes_discrete}
use bitrst.Mempool.Types.{MempoolEntry, Mempool, len}
use bitrst.Mempool.Pool.{
  lowest_priority_txid, outranks, should_evict, remove_entry, remove_entries,
  remove_entry_and_descendants, descendants_of, evict_lowest,
}

-- No transaction stands twice, and the bytes are counted.
pub record Accounted (pool : Mempool) : Type 0 where
  pub distinct : Distinct bytes_discrete pool.entries
  pub bytes : pool.total_bytes ≡ total (λ entry. entry.size) pool.entries

-- A pool that lost entries from another: the same limits, no more entries, and none that was
-- not there.
pub record Shrunk (before after : Mempool) : Type 0 where
  pub limits : after.limits ≡ before.limits
  pub fewer : len after ≤ len before
  pub none_new :
      (id : List ℕ)
      → Map.get bytes_discrete id before.entries ≡ none
      → Map.get bytes_discrete id after.entries ≡ none
  pub next : after.next_seq ≡ before.next_seq

pub Shrunk-refl : (pool : Mempool) → Shrunk pool pool
Shrunk-refl pool = record { limits = refl; fewer = omega arith; none_new = λ id h. h; next = refl }

pub Shrunk-trans : (a b c : Mempool) → Shrunk a b → Shrunk b c → Shrunk a c
Shrunk-trans a b c p q = record {
  limits = q.limits ∙ p.limits;
  fewer = (let x = p.fewer in let y = q.fewer in omega arith);
  none_new = λ id h. q.none_new id (p.none_new id h);
  next = q.next ∙ p.next;
}

-- Removing keeps the accounts, and removing an entry that is there makes the pool shorter.
pub remove_entry-Accounted :
    (pool : Mempool) (id : List ℕ)
    → Accounted pool
    → Accounted (remove_entry pool id) × Shrunk pool (remove_entry pool id)
unfolding remove_entry len
remove_entry-Accounted pool id acc = elim (Option-cases (Map.get bytes_discrete id pool.entries)) [
  | inl e ↦ rw e (acc, Shrunk-refl pool)
  | inr (entry, e) ↦
      let sum =
        total-remove bytes_discrete (λ (x : MempoolEntry). x.size) id entry pool.entries
          acc.distinct e in
      let bytes = acc.bytes in
      rw e (
        record {
          distinct = remove-Distinct bytes_discrete id pool.entries acc.distinct;
          bytes = omega arith;
        },
        record {
          limits = refl;
          fewer = size-remove-le bytes_discrete id pool.entries;
          none_new = λ q h. get-remove bytes_discrete id q pool.entries ∙ ground arith;
          next = refl;
        },
      )
]

pub remove_entry-shorter :
    (pool : Mempool) (id : List ℕ) (entry : MempoolEntry)
    → Map.get bytes_discrete id pool.entries ≡ some entry
    → suc (len (remove_entry pool id)) ≤ len pool
unfolding remove_entry len
remove_entry-shorter pool id entry e =
    rw e (size-remove_found bytes_discrete id entry pool.entries e)

pub remove_entries-Accounted :
    (pool : Mempool) (ids : List (List ℕ))
    → Accounted pool
    → Accounted (remove_entries pool ids) × Shrunk pool (remove_entries pool ids)
unfolding remove_entries
remove_entries-Accounted pool [] acc = (acc, Shrunk-refl pool)
remove_entries-Accounted pool (id ∷ ids) acc =
    let (acc₁, shrunk₁) = remove_entry-Accounted pool id acc in
    let (acc₂, shrunk₂) = remove_entries-Accounted (remove_entry pool id) ids acc₁ in
    (acc₂, Shrunk-trans _ _ _ shrunk₁ shrunk₂)

pub evict_lowest-Accounted :
    (pool after : Mempool) (candidate : MempoolEntry)
    → Accounted pool
    → evict_lowest pool candidate ≡ some after
    → Accounted after × Shrunk pool after × (suc (len after) ≤ len pool)
unfolding evict_lowest should_evict remove_entry_and_descendants remove_entries
evict_lowest-Accounted pool after candidate acc h =
    elim (Option-cases (lowest_priority_txid pool)) [
      | inl e ↦
          let none_left : none ≡ some after = rw (evict_lowest, e) at h in absurd (ground arith)
      | inr (victim, e) ↦ elim (Option-cases (Map.get bytes_discrete victim pool.entries)) [
        | inl gone ↦
            let stays : none ≡ some after = rw (evict_lowest, e, should_evict, gone) at h in
            absurd (ground arith)
        | inr (entry, found) ↦ elim (Bool-cases (outranks candidate (some entry))) [
          | inr weak ↦
              let stays : none ≡ some after =
                rw (evict_lowest, e, should_evict, found, weak) at h in
              absurd (ground arith)
          | inl goes ↦
              let same : some
                    (remove_entries (remove_entry pool victim) (descendants_of pool victim))
                  ≡ some after =
                rw (evict_lowest, e, should_evict, found, goes) at h in
              let same' : remove_entries (remove_entry pool victim) (descendants_of pool victim)
                  ≡ after =
                ground arith in
              let (acc₁, shrunk₁) = remove_entry-Accounted pool victim acc in
              let (acc₂, shrunk₂) =
                remove_entries-Accounted (remove_entry pool victim) (descendants_of pool victim)
                  acc₁ in
              let shorter = remove_entry-shorter pool victim entry found in
              let fewer = shrunk₂.fewer in
              let left : Mempool =
                remove_entries (remove_entry pool victim) (descendants_of pool victim) in
              let result : Accounted left × Shrunk pool left × (suc (len left) ≤ len pool) =
                (acc₂, Shrunk-trans _ _ _ shrunk₁ shrunk₂, omega arith) in
              rw same' at result
        ]
      ]
    ]
