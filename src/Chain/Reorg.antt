-- ===== src/Chain/Reorg.antt =====
-- How crates/bitrst-core/src/chain.rs moves the active chain to a fork with more work.
use bitrst.Base.{
  ℕ, zero, suc, ◌+◌, ◌%◌, ◌^◌, List, [], ◌∷◌, length, Option, none, some, if◌then◌else◌, Result, ok,
  err, ok_or,
}
use bitrst.Base.Map
use bitrst.Base.Keys.{bytes_discrete}
use bitrst.Crypto.{Primitives}
use bitrst.Block.Types.{Block}
use bitrst.Chain.Work.{ChainWork, add}
use bitrst.Chain.Types
use bitrst.Chain.Types.{
  Chain, ChainError, BlockMeta, Fault, failed, panicked, out_of_fuel, block_work,
}
use bitrst.Chain.Header.{validate_block_for_parent}
use bitrst.Chain.Reads.{height, tip_hash, find_height, found}
use bitrst.Chain.Attach.{apply_all, attach, disconnect_tip_block, work_of}
use bitrst.Chain.Action.{Action, ◌>>=◌, ◌>>◌, pure, lift, modify}

abbrev parent_of : List Block → Option Block
parent_of [] = none
parent_of (tip ∷ blocks) = some tip

-- `while let Some(tip) = path.last()`: the path ends with the block whose parent is sought. What
-- comes back is the path from the fork up, which is the source's after its `reverse`.
unfoldable pub collect_from : ℕ → Chain → Block → List Block → Result Fault (List Block × List ℕ)
collect_from zero chain tip path = err out_of_fuel
collect_from (suc fuel) chain tip path =
    let parent_hash = tip.header.prev_blockhash in
    if found (Map.get bytes_discrete parent_hash chain.active_hashes)
    then ok (path, parent_hash)
    else elim (Map.get bytes_discrete parent_hash chain.known) [
      | none ↦ err (failed Types.missing_ancestor)
      | some meta ↦ collect_from fuel chain meta.block (meta.block ∷ path)
    ]

-- The heights fall along the path, so that it ends at height 0 at the latest.
abbrev pub path_fuel : Option BlockMeta → ℕ
path_fuel none = 1
path_fuel (some parent) = suc (suc parent.height)

unfoldable pub collect_fork_path : Chain → Block → Result Fault (List Block × List ℕ)
collect_fork_path chain block =
    collect_from (path_fuel (Map.get bytes_discrete block.header.prev_blockhash chain.known)) chain
      block (block ∷ [])

-- A loop that ends with `value` where the decision holds.
abbrev pub unless : {P A : Type 0} → Dec P → A → Action A → Action A
unless (yes p) value more = pure value
unless (no p) value more = more

-- What `before` holds comes back if the reorganization returned an error.
unfoldable pub restore : Chain → Chain × Result Fault ℕ → Chain × Result Fault ℕ
restore before (chain, ok depth) = (chain, ok depth)
restore before (chain, err panicked) = (chain, err panicked)
restore before (chain, err out_of_fuel) = (chain, err out_of_fuel)
restore before (chain, err (failed e)) = (
  record chain {
    blocks = before.blocks;
    utxo = before.utxo;
    total_work = before.total_work;
    active_hashes = before.active_hashes;
  },
  err (failed e),
)

module _ (crypto : Primitives) where
  -- `while self.tip_hash() != fork_hash`, with the count of the blocks taken off, a `u32`.
  unfoldable pub disconnect_until : ℕ → List ℕ → ℕ → Action ℕ
  disconnect_until zero fork_hash disconnected chain =
      unless (bytes_discrete (tip_hash crypto chain) fork_hash) disconnected
        (lift (err out_of_fuel)) chain
  disconnect_until (suc fuel) fork_hash disconnected chain =
      unless (bytes_discrete (tip_hash crypto chain) fork_hash) disconnected
        (disconnect_tip_block crypto
          >> disconnect_until fuel fork_hash ((disconnected + 1) % 2 ^ 32))
        chain

  -- The transactions have been applied when the work of the block is computed.
  abbrev pub parent_plus : Block → Result ChainError ChainWork → Action ChainWork
  parent_plus block (ok work) chain = (
    chain,
    ok (add (work_of (Map.get bytes_discrete block.header.prev_blockhash chain.known)) work),
  )
  parent_plus block (err e) chain =
      (record chain { utxo = (apply_all crypto block.transactions chain.utxo).0 }, err (failed e))

  -- The work up to a block of the path.
  unfoldable pub path_work : Block → Action ChainWork
  path_work block = parent_plus block (block_work block.header.bits)

  -- One round of the loop over the fork's blocks: `height() + 1` wraps.
  unfoldable pub connect_path_block : Block → Action (Unit {0})
  connect_path_block block chain =
      let at = (height chain + 1) % 2 ^ 32 in
      (do
        lift (
            validate_block_for_parent crypto block (parent_of chain.blocks)
              (some block.header.prev_blockhash) at chain)
        work ← path_work block
        modify (attach crypto block at work))
        chain

  unfoldable pub connect_path : List Block → Action (Unit {0})
  connect_path [] = pure tt
  connect_path (block ∷ path) = do connect_path_block block; connect_path path

  -- Every round takes a block off, so that one more than there are is enough.
  unfoldable pub try_reorg_to_block : List Block → List ℕ → ChainWork → Action ℕ
  try_reorg_to_block fork_path fork_hash new_tip_work chain =
      (do
        fork_height ← lift (ok_or (find_height chain fork_hash) (failed Types.missing_ancestor))
        disconnected ← disconnect_until (suc (length chain.blocks)) fork_hash 0
        connect_path fork_path
        modify (λ moved. record moved { total_work = new_tip_work })
        pure disconnected)
        chain

  abbrev pub reorg_along : ChainWork → Result Fault (List Block × List ℕ) → Action ℕ
  reorg_along new_tip_work (err fault) chain = (chain, err fault)
  reorg_along new_tip_work (ok (path, fork_hash)) chain =
      restore chain (try_reorg_to_block path fork_hash new_tip_work chain)

  unfoldable pub reorg_to_block : Block → ChainWork → Action ℕ
  reorg_to_block new_block new_tip_work chain =
      reorg_along new_tip_work (collect_fork_path chain new_block) chain
