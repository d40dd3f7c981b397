-- ===== src/Chain/OrphanPool.antt =====
-- The size of the orphan pool of crates/bitrst-core/src/chain.rs.
use bitrst.Base.{
  ℕ, zero, suc, ◌+◌, ◌≤◌, ◌≡◌, refl, ◌≢◌, ◌⊎◌, length, Option-cases, List, [], ◌∷◌, Option, none,
  some, Bool, true, false, if◌then◌else◌, leb, ltb, Result, ok, err, if_pos, if_neg, Bool-cases,
  inl, inr, arith,
}
use bitrst.Base.Map
use bitrst.Base.Map.{Map, size-remove-le, size-remove_found}
use bitrst.Base.Keys.{bytes_discrete}
use bitrst.Limits.{max_orphan_blocks}
use bitrst.Crypto.{Primitives}
use bitrst.Block.Types.{Block}
use bitrst.Block.Encode.{hash}
use bitrst.Chain.Types.{Chain, OrphanEntry, BlockMeta, Fault}
use bitrst.Chain.Action.{Action, after, pure, lift, ◌>>◌}
use bitrst.Chain.Attach.{publish}
use bitrst.Chain.Orphans.{
  older, oldest_orphan, evict_oldest_orphan, insert_orphan, take_ready, enqueue_ready_orphans,
  is_ready,
}
use bitrst.Chain.Connect.{
  connect_to_parent, connect_one, connect_queue, process_orphans, connect_block, tip_moved,
}
use bitrst.Chain.Steps.{connect_to_parent-Growing}

abbrev pub Bounded : Chain → Type 0
Bounded chain = Map.size chain.orphans ≤ max_orphan_blocks

older-cases :
    (k : List ℕ) (e : OrphanEntry) (best : Option (List ℕ × OrphanEntry)) (id : List ℕ)
    (entry : OrphanEntry)
    → older k e best ≡ some (id, entry)
    → (k ≡ id) ⊎ (best ≡ some (id, entry))
older-cases k e none id entry h = inl (ground arith)
older-cases k e (some (other, rival)) id entry h =
    elim (Bool-cases (ltb rival.received_at e.received_at)) [
      | inl yes_ ↦ inr (rw yes_ at h)
      | inr no_ ↦ inl (ground arith)
    ]

-- The oldest orphan is one of the orphans.
oldest_orphan-found :
    (orphans : Map (List ℕ) OrphanEntry) (id : List ℕ) (entry : OrphanEntry)
    → oldest_orphan orphans ≡ some (id, entry)
    → (found : OrphanEntry) × (Map.get bytes_discrete id orphans ≡ some found)
unfolding oldest_orphan Map.get
oldest_orphan-found [] id entry h = absurd (ground arith)
oldest_orphan-found ((k, e) ∷ orphans) id entry h = elim (bytes_discrete k id) [
  | yes p ↦ (e, rw (if_pos _ p) refl)
  | no p ↦ elim (older-cases k e (oldest_orphan orphans) id entry h) [
    | inl same ↦ absurd (p same)
    | inr among ↦
        let (v, found) = oldest_orphan-found orphans id entry among in (v, rw (if_neg _ p) found)
  ]
]

-- Some orphan is the oldest, unless there is none.
older-some :
    (k : List ℕ) (e : OrphanEntry) (best : Option (List ℕ × OrphanEntry)) → older k e best ≢ none
older-some k e none h = ground arith
older-some k e (some (other, rival)) h = elim (Bool-cases (ltb rival.received_at e.received_at)) [
  | inl yes_ ↦ ground arith
  | inr no_ ↦ ground arith
]

oldest_orphan-none :
    (orphans : Map (List ℕ) OrphanEntry) → oldest_orphan orphans ≡ none → Map.size orphans ≡ 0
unfolding oldest_orphan
oldest_orphan-none [] h = refl
oldest_orphan-none ((k, e) ∷ orphans) h = absurd (older-some k e (oldest_orphan orphans) h)

-- An eviction takes at least one orphan out of a pool that has one.
evict_oldest_orphan-size :
    (chain : Chain)
    → Map.size chain.orphans ≤ max_orphan_blocks
    → suc (Map.size (evict_oldest_orphan chain).orphans) ≤ max_orphan_blocks
unfolding evict_oldest_orphan publish
evict_oldest_orphan-size chain h = elim (Option-cases (oldest_orphan chain.orphans)) [
  | inl none_ ↦ rw none_ (let empty = oldest_orphan-none chain.orphans none_ in omega arith)
  | inr ((id, entry), some_) ↦
      let (v, found) = oldest_orphan-found chain.orphans id entry some_ in
      rw some_ (let less = size-remove_found bytes_discrete id v chain.orphans found in omega arith)
]

insert_orphan-Bounded :
    (crypto : Primitives) (block : Block) (chain : Chain)
    → Bounded chain
    → Bounded (insert_orphan crypto block chain)
unfolding insert_orphan Map.insert publish
insert_orphan-Bounded crypto block chain h =
    elim (Bool-cases (leb max_orphan_blocks (Map.size chain.orphans))) [
      | inl full ↦
          let evicted = evict_oldest_orphan-size chain h in
          let less =
            size-remove-le bytes_discrete (hash crypto block) (evict_oldest_orphan chain).orphans in
          rw full (omega arith)
      | inr room ↦
          let less = size-remove-le bytes_discrete (hash crypto block) chain.orphans in
          let below : suc (Map.size chain.orphans) ≤ max_orphan_blocks = ground arith in
          rw room (omega arith)
    ]

pub take_ready-size :
    (known : Map (List ℕ) BlockMeta) (orphans : Map (List ℕ) OrphanEntry)
    → length (take_ready known orphans).0 + Map.size (take_ready known orphans).1 ≡ Map.size orphans
unfolding take_ready
take_ready-size known [] = omega arith
take_ready-size known ((id, entry) ∷ orphans) =
    let ih = take_ready-size known orphans in
    elim (Bool-cases (is_ready known entry)) [
      | inl ready ↦ rw ready (omega arith)
      | inr waits ↦ rw waits (omega arith)
    ]

enqueue_ready_orphans-Bounded :
    (queue : List Block) (chain : Chain)
    → Bounded chain
    → Bounded (enqueue_ready_orphans queue chain).1
unfolding enqueue_ready_orphans
enqueue_ready_orphans-Bounded queue chain h =
    let parts = take_ready-size chain.known chain.orphans in omega arith

after-Bounded :
    {A B : Type 0} (out : Chain × Result Fault A) (next : A → Action B)
    → Bounded out.0
    → ((a : A) (c : Chain) → Bounded c → Bounded (next a c).0)
    → Bounded (after out next).0
after-Bounded (c, ok a) next h k = k a c h
after-Bounded (c, err fault) next h k = h

if-Bounded :
    {A : Type 0} (b : Bool) (x y : Chain × Result Fault A)
    → Bounded x.0
    → Bounded y.0
    → Bounded (if b then x else y).0
if-Bounded true x y h k = h
if-Bounded false x y h k = k

module _ (crypto : Primitives) where
  connect_to_parent-Bounded :
      (block : Block) (parent : Option BlockMeta) (chain : Chain)
      → Bounded chain
      → Bounded (connect_to_parent crypto block parent chain).0
  unfolding connect_to_parent
  connect_to_parent-Bounded block none chain h = insert_orphan-Bounded crypto block chain h
  connect_to_parent-Bounded block (some parent) chain h =
      rw (connect_to_parent-Growing crypto block parent chain).orphans h

  then-Bounded :
      {B : Type 0} (check : Result Fault (Unit {0})) (next : Action B) (chain : Chain)
      → Bounded chain
      → Bounded (next chain).0
      → Bounded ((lift check >> next) chain).0
  unfolding lift ◌>>◌
  then-Bounded (ok done) next chain h k = k
  then-Bounded (err fault) next chain h k = h

  pub connect_one-Bounded :
      (block : Block) (chain : Chain) → Bounded chain → Bounded (connect_one crypto block chain).0
  unfolding connect_one
  connect_one-Bounded block chain h =
      then-Bounded _ (connect_to_parent crypto block _) chain h
        (connect_to_parent-Bounded block _ chain h)

  connect_queue-Bounded :
      (fuel : ℕ) (queue : List Block) (chain : Chain)
      → Bounded chain
      → Bounded (connect_queue crypto fuel queue chain).0
  unfolding connect_queue
  connect_queue-Bounded zero [] chain h = h
  connect_queue-Bounded (suc fuel) [] chain h = h
  connect_queue-Bounded zero (block ∷ queue) chain h = h
  connect_queue-Bounded (suc fuel) (block ∷ queue) chain h =
      after-Bounded (connect_one crypto block chain) _ (connect_one-Bounded block chain h)
        (λ outcome moved k.
          connect_queue-Bounded fuel (enqueue_ready_orphans queue moved).0
            (enqueue_ready_orphans queue moved).1 (enqueue_ready_orphans-Bounded queue moved k))

  process_orphans-Bounded :
      (chain : Chain) → Bounded chain → Bounded (process_orphans crypto chain).0
  unfolding process_orphans
  process_orphans-Bounded chain h =
      connect_queue-Bounded (Map.size chain.orphans) (enqueue_ready_orphans [] chain).0
        (enqueue_ready_orphans [] chain).1 (enqueue_ready_orphans-Bounded [] chain h)

  -- Connecting a block, whatever comes of it, keeps the number of orphans within the limit.
  pub connect_block-Bounded :
      (block : Block) (chain : Chain) → Bounded chain → Bounded (connect_block crypto block chain).0
  unfolding connect_block pure
  connect_block-Bounded block chain h =
      after-Bounded (connect_one crypto block chain) _ (connect_one-Bounded block chain h)
        (λ outcome moved k.
          if-Bounded (tip_moved crypto outcome) (after (process_orphans crypto moved) _) _
            (after-Bounded (process_orphans crypto moved) (λ done. pure outcome)
              (process_orphans-Bounded moved k) (λ done c b. b))
            k)
