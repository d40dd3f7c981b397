-- ===== src/Chain/Orphans.antt =====
-- The pool of the blocks whose parent is not known, in crates/bitrst-core/src/chain.rs.
use bitrst.Base.{
  ℕ, ◌+◌, ◌%◌, ◌^◌, List, [], ◌∷◌, ◌++◌, Option, none, some, Bool, ltb, leb, if◌then◌else◌,
}
use bitrst.Base.Map
use bitrst.Base.Map.{Map}
use bitrst.Base.Keys.{bytes_discrete}
use bitrst.Limits.{max_orphan_blocks}
use bitrst.Crypto.{Primitives}
use bitrst.Block.Types.{Block}
use bitrst.Block.Encode.{hash}
use bitrst.Journal.Events.{orphan_added, orphan_evicted, pool_full}
use bitrst.Chain.Types.{Chain, OrphanEntry, BlockMeta}
use bitrst.Chain.Reads.{found}
use bitrst.Chain.Attach.{announce}

abbrev Orphans : Type 0
Orphans = Map (List ℕ) OrphanEntry

-- The older of an orphan and the oldest of the others.
abbrev pub older :
    List ℕ → OrphanEntry → Option (List ℕ × OrphanEntry) → Option (List ℕ × OrphanEntry)
older id entry none = some (id, entry)
older id entry (some (other, rival)) =
    if ltb rival.received_at entry.received_at then some (other, rival) else some (id, entry)

-- `min_by_key(|(_, entry)| entry.received_at)`; no two orphans have the same number before the
-- counter wraps.
unfoldable pub oldest_orphan : Orphans → Option (List ℕ × OrphanEntry)
oldest_orphan [] = none
oldest_orphan ((id, entry) ∷ orphans) = older id entry (oldest_orphan orphans)

abbrev evict : Option (List ℕ × OrphanEntry) → Chain → Chain
evict none chain = chain
evict (some (id, entry)) chain =
    announce (orphan_evicted id pool_full)
      (record chain { orphans = Map.remove bytes_discrete id chain.orphans })

unfoldable pub evict_oldest_orphan : Chain → Chain
evict_oldest_orphan chain = evict (oldest_orphan chain.orphans) chain

abbrev keep_orphan : List ℕ → Block → Chain → Chain
keep_orphan id block chain =
    let seq = (chain.orphan_receive_seq + 1) % 2 ^ 64 in
    let orphans =
      Map.insert bytes_discrete id (record { block = block; received_at = seq }) chain.orphans in
    announce (orphan_added id (Map.size orphans))
      (record chain { orphan_receive_seq = seq; orphans = orphans })

unfoldable pub insert_orphan : Primitives → Block → Chain → Chain
insert_orphan crypto block chain =
    let room =
      if leb max_orphan_blocks (Map.size chain.orphans) then evict_oldest_orphan chain else chain in
    keep_orphan (hash crypto block) block room

abbrev pub is_ready : Map (List ℕ) BlockMeta → OrphanEntry → Bool
is_ready known entry = found (Map.get bytes_discrete entry.block.header.prev_blockhash known)

-- The blocks of the orphans whose parent is known, in the order of the map, which the source
-- leaves open, and the orphans that are left.
unfoldable pub take_ready : Map (List ℕ) BlockMeta → Orphans → List Block × Orphans
take_ready known [] = ([], [])
take_ready known ((id, entry) ∷ orphans) =
    let (ready, left) = take_ready known orphans in
    if is_ready known entry then (entry.block ∷ ready, left) else (ready, (id, entry) ∷ left)

unfoldable pub enqueue_ready_orphans : List Block → Chain → List Block × Chain
enqueue_ready_orphans queue chain =
    let (ready, left) = take_ready chain.known chain.orphans in
    (queue ++ ready, record chain { orphans = left })
